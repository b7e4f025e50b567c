-- ===== src/Ysf/Client/Heard.antt =====
-- A transmission as another client of the reflector hears it.
use svx_reflector_dashboard.Base.{
  ℕ, suc, ◌%◌, ◌≡◌, refl, ap, ◌∙◌, arith, Bool, true, false, none, some, List, [], ◌∷◌, ◌++◌,
  append_assoc, ◌==◌, if◌then◌else◌, length, All,
}
use svx_reflector_dashboard.Base.Buffer.{Bytes, make, length-make}
use svx_reflector_dashboard.Bridge.{equal_fold}
use svx_reflector_dashboard.Xlx.Slow.{pad_callsign}
use svx_reflector_dashboard.Xlx.Client.{trim_space}
use svx_reflector_dashboard.Ysf.Packet.{fi_header, fi_comm, fi_term, dt_vd2, YsfVoiceFrame}
use svx_reflector_dashboard.Ysf.Packet.RoundTrip.{parse_ysfd-build_ysfd, build_ysfd_tags}
use svx_reflector_dashboard.Ysf.Voice.{pack_vd2_ambe, extract_vd2_ambe}
use svx_reflector_dashboard.Ysf.Voice.RoundTrip.{
  IsFive, extract_vd2_ambe_five, length-pack_vd2_ambe,
}
use svx_reflector_dashboard.Ysf.Client.{
  Settings, Tx, all_calls, tx_packet, start_tx, send_voice, stop_tx, heard,
}

-- `SendVoice` for each packet's frames in turn.
unfoldable pub send_all : Settings → List (List Bytes) → Tx → Tx
send_all p [] tx = tx
send_all p (fs ∷ more) tx = send_all p more (send_voice p fs tx)

-- What is heard of a packet: its kind and number, the end mark, and the voice, if it carries any.
pub record Part : Type 0 where
  pub kind : ℕ
  pub number : ℕ
  pub ends : Bool
  pub voice : List Bytes

unfoldable pub part_of : YsfVoiceFrame → Part
part_of f = record {
  kind = f.fi;
  number = f.counter;
  ends = f.eot;
  voice = if f.fi == fi_comm then extract_vd2_ambe f.payload else [];
}

unfoldable pub listen : Settings → List Bytes → List Part
listen r [] = []
listen r (p ∷ ps) = elim (heard r p) [ none ↦ listen r ps | some f ↦ part_of f ∷ listen r ps ]

-- The sender's call is not the listener's own.
abbrev pub IsOther : Settings → Settings → Type 0
IsOther r p = equal_fold (trim_space (pad_callsign p.callsign 10)) r.callsign ≡ false

-- Packet `k` of a transmission and those behind it.
abbrev pub parts : (k : ℕ) → List (List Bytes) → List Part
parts k [] = record { kind = fi_term; number = k % 128; ends = true; voice = [] } ∷ []
parts k (fs ∷ more) =
    record { kind = fi_comm; number = k % 128; ends = false; voice = fs } ∷ parts (suc k) more

heard-tx_packet :
    (r p : Settings) (counter : ℕ) (eot : Bool) (fi fn : ℕ) (payload : Bytes)
    → IsOther r p
    → (length payload == 90) ≡ true
    → heard r (tx_packet p counter eot fi fn payload)
      ≡ some (record {
        src_gateway = pad_callsign p.callsign 10;
        src_radio = pad_callsign p.callsign 10;
        dest = pad_callsign all_calls 10;
        counter = counter % 128;
        eot = eot;
        fi = fi % 4;
        fn = fn % 8;
        ft = 6;
        dt = 2;
        dg_id = p.dgid % 128;
        payload = payload;
      })
unfolding heard tx_packet
heard-tx_packet r p counter eot fi fn payload own hp =
    let (a, b) =
      build_ysfd_tags p.callsign p.callsign all_calls counter eot fi fn 6 dt_vd2 p.dgid payload in
    rw
      (
        a,
        b,
        parse_ysfd-build_ysfd p.callsign p.callsign all_calls counter eot fi fn 6 dt_vd2 p.dgid
            payload hp,
        own,
      )
      refl

size_ninety : (n : ℕ) → n ≡ 90 → (n == 90) ≡ true
size_ninety n h = ground arith

listen-end :
    (r p : Settings) (k : ℕ) (tx : Tx)
    → IsOther r p
    → tx.tx_counter ≡ k % 128
    → listen r (tx_packet p tx.tx_counter true fi_term 0 (make 90) ∷ []) ≡ parts k []
unfolding listen part_of
listen-end r p k tx own number =
    let e : tx.tx_counter % 128 ≡ k % 128 = omega arith in
    rw
      (
        heard-tx_packet r p tx.tx_counter true fi_term 0 (make 90) own
            (size_ninety _ (length-make 90)),
        listen,
      )
      (ap (λ (n : ℕ). record { kind = fi_term; number = n; ends = true; voice = [] } ∷ []) e)

listen_comm :
    (r p : Settings) (k : ℕ) (tx : Tx) (fs : List Bytes) (rest : List Bytes)
    → IsOther r p
    → IsFive fs
    → tx.tx_counter ≡ k % 128
    → listen r (tx_packet p tx.tx_counter false fi_comm tx.tx_fn (pack_vd2_ambe fs) ∷ rest)
      ≡ record { kind = fi_comm; number = k % 128; ends = false; voice = fs } ∷ listen r rest
unfolding listen part_of
listen_comm r p k tx fs rest own five number =
    let e : tx.tx_counter % 128 ≡ k % 128 = omega arith in
    let payload = pack_vd2_ambe fs in
    rw
      (
        heard-tx_packet r p tx.tx_counter false fi_comm tx.tx_fn payload own
            (size_ninety _ (length-pack_vd2_ambe fs)),
        listen,
      )
      (rw (extract_vd2_ambe_five fs five) (
        ap
          (λ (n : ℕ).
            record { kind = fi_comm; number = n; ends = false; voice = fs } ∷ listen r rest)
          e))

listen-rest :
    (r p : Settings) (k : ℕ) (fss : List (List Bytes)) (tx : Tx) (before : List Bytes)
    → IsOther r p
    → All IsFive fss
    → tx.tx_counter ≡ k % 128
    → tx.sent ≡ before
    → (rest : List Bytes) × ((stop_tx p (send_all p fss tx)).sent ≡ before ++ rest)
      × (listen r rest ≡ parts k fss)
unfolding stop_tx send_all
listen-rest r p k [] tx before own five number so_far = (
  tx_packet p tx.tx_counter true fi_term 0 (make 90) ∷ [],
  ap (λ l. l ++ (tx_packet p tx.tx_counter true fi_term 0 (make 90) ∷ [])) so_far,
  listen-end r p k tx own number,
)
listen-rest r p k (fs ∷ fss) tx before own (five, more) number so_far =
    let pkt = tx_packet p tx.tx_counter false fi_comm tx.tx_fn (pack_vd2_ambe fs) in
    let (rest, sent, ih) =
      listen-rest r p (suc k) fss (send_voice p fs tx) (before ++ (pkt ∷ [])) own more
        (unfold send_voice in omega arith)
        (unfold send_voice in ap (λ (l : List Bytes). l ++ (pkt ∷ [])) so_far) in
    (
      pkt ∷ rest,
      sent ∙ append_assoc before (pkt ∷ []) rest,
      listen_comm r p k tx fs rest own five number
          ∙ ap
              (λ (l : List Part).
                record { kind = fi_comm; number = k % 128; ends = false; voice = fs } ∷ l)
              ih,
    )

-- A transmission of packets of five voice frames of 49 bits each: a client whose call is another hears
-- a header, then the voice unchanged, packet by packet in order, and a terminator with the end mark,
-- numbered 0, 1, 2 and so on modulo 128.
pub listen-parts :
    (r p : Settings) (fss : List (List Bytes)) (tx : Tx)
    → IsOther r p
    → All IsFive fss
    → tx.sent ≡ []
    → listen r (stop_tx p (send_all p fss (start_tx p tx))).sent
      ≡ record { kind = fi_header; number = 0; ends = false; voice = [] } ∷ parts 1 fss
unfolding start_tx part_of listen
listen-parts r p fss tx own five none_sent =
    let header = tx_packet p 0 false fi_header 0 (make 90) in
    let (rest, sent, heard_rest) =
      listen-rest r p 1 fss (start_tx p tx) (header ∷ []) own five (omega arith)
        (ap (λ (l : List Bytes). l ++ (header ∷ [])) none_sent) in
    ap (listen r) sent
    ∙ rw
        (
          heard-tx_packet r p 0 false fi_header 0 (make 90) own (size_ninety _ (length-make 90)),
          listen,
        )
        (rw heard_rest refl)
