-- ===== src/Decoder/Accepted.antt =====
-- The decoder gives back every record that is whole, and only such.
use e_trace_gen_e_bpfevent_t.Base.{
  ◌⊎◌, ◌||◌, ltb, if◌then◌else◌, ℕ, ◌≤◌, ◌≡◌, refl, ap, sym, ◌∙◌, inl, inr, Bool-cases, List, ◌++◌,
  Option, none, some, length, length-append, arith,
}
use e_trace_gen_e_bpfevent_t.Schema.Kinds.{
  event_type_process, event_type_file, event_type_syscall, event_type_network,
}
use e_trace_gen_e_bpfevent_t.Schema.{
  sizeof_event_header, sizeof_process_event, sizeof_file_event, sizeof_syscall_event,
  sizeof_network_event, Event, EventHeader, header,
}
use e_trace_gen_e_bpfevent_t.Decoder.Structs.{
  to_header, process_layout, file_layout, syscall_layout, network_layout, to_process, to_file,
  to_syscall, to_network,
}
use e_trace_gen_e_bpfevent_t.Decoder.Decode.{is_whole, decode, decode_as, read_header}
use e_trace_gen_e_bpfevent_t.Decoder.Layout.{decode_fields, encode_fields}
use e_trace_gen_e_bpfevent_t.Kernel.Sound.{IsTagged}
use e_trace_gen_e_bpfevent_t.Decoder.RoundTrip.{
  width, decode_fields-encode, length-encode_fields, widths,
}
use e_trace_gen_e_bpfevent_t.Decoder.Encode.{encode, IsWire, layout_of, values_of}

-- The branches of the decoder, with the four records that it may give.
select : EventHeader → ℕ → Event → Event → Event → Event → Option Event
select hdr n a b c d =
    if ltb n sizeof_event_header
    then none
    else if ltb hdr.size sizeof_event_header || ltb n hdr.size
    then none
    else if is_whole event_type_process sizeof_process_event hdr n
    then some a
    else if is_whole event_type_file sizeof_file_event hdr n
    then some b
    else if is_whole event_type_syscall sizeof_syscall_event hdr n
    then some c
    else if is_whole event_type_network sizeof_network_event hdr n
    then some d
    else none

decode_as-select :
    (hdr : EventHeader) (mem : List ℕ)
    → decode_as hdr mem
      ≡ select hdr
          (length mem)
          (Event.process (to_process (decode_fields process_layout mem)))
          (Event.file (to_file (decode_fields file_layout mem)))
          (Event.syscall (to_syscall (decode_fields syscall_layout mem)))
          (Event.network (to_network (decode_fields network_layout mem)))
unfolding decode_as select
decode_as-select hdr mem = refl

-- What is selected for the type and the size of each family.
module _ (hdr : EventHeader) (n : ℕ) (a b c d : Event) where
  select-process :
      hdr.type ≡ event_type_process
      → hdr.size ≡ sizeof_process_event
      → 1120 ≤ n
      → select hdr n a b c d ≡ some a
  unfolding select
  select-process tag size whole = ground arith

  select-file :
      hdr.type ≡ event_type_file
      → hdr.size ≡ sizeof_file_event
      → 592 ≤ n
      → select hdr n a b c d ≡ some b
  unfolding select
  select-file tag size whole = ground arith

  select-syscall :
      hdr.type ≡ event_type_syscall
      → hdr.size ≡ sizeof_syscall_event
      → 96 ≤ n
      → select hdr n a b c d ≡ some c
  unfolding select
  select-syscall tag size whole = ground arith

  select-network :
      hdr.type ≡ event_type_network
      → hdr.size ≡ sizeof_network_event
      → 448 ≤ n
      → select hdr n a b c d ≡ some d
  unfolding select
  select-network tag size whole = ground arith

  -- A selection has the type and the size of its family, and is whole.
  select_cases :
      (ev : Event)
      → select hdr n a b c d ≡ some ev
      → ((ev ≡ a)
          × (hdr.type ≡ event_type_process)
          × (hdr.size ≡ sizeof_process_event)
          × (1120 ≤ n))
        ⊎ (((ev ≡ b) × (hdr.type ≡ event_type_file) × (hdr.size ≡ sizeof_file_event) × (592 ≤ n))
            ⊎ (((ev ≡ c)
                  × (hdr.type ≡ event_type_syscall)
                  × (hdr.size ≡ sizeof_syscall_event)
                  × (96 ≤ n))
                ⊎ ((ev ≡ d)
                    × (hdr.type ≡ event_type_network)
                    × (hdr.size ≡ sizeof_network_event)
                    × (448 ≤ n))))
  unfolding select
  select_cases ev h = elim (Bool-cases (is_whole event_type_process sizeof_process_event hdr n)) [
    | inl first ↦ inl (ground arith, ground arith, ground arith, ground arith)
    | inr not_first ↦ elim (Bool-cases (is_whole event_type_file sizeof_file_event hdr n)) [
      | inl second ↦ inr (inl (ground arith, ground arith, ground arith, ground arith))
      | inr not_second ↦
          elim (Bool-cases (is_whole event_type_syscall sizeof_syscall_event hdr n)) [
            | inl third ↦ inr (inr (inl (ground arith, ground arith, ground arith, ground arith)))
            | inr not_third ↦
                elim (Bool-cases (is_whole event_type_network sizeof_network_event hdr n)) [
                  | inl fourth ↦
                      inr (inr (inr (ground arith, ground arith, ground arith, ground arith)))
                  | inr not_fourth ↦ ground arith
                ]
          ]
    ]
  ]

-- The header is the front of each struct.
header-front :
    (mem : List ℕ)
    → (read_header mem ≡ to_header (decode_fields process_layout mem))
      × (read_header mem ≡ to_header (decode_fields file_layout mem))
      × (read_header mem ≡ to_header (decode_fields syscall_layout mem))
      × (read_header mem ≡ to_header (decode_fields network_layout mem))
unfolding read_header decode_fields
header-front mem = (refl, refl, refl, refl)

length-encode :
    (ev : Event) (rest : List ℕ) → IsWire ev → widths (layout_of ev) ≤ length (encode ev ++ rest)
unfolding encode IsWire
length-encode ev rest wire = omega (
  arith,
  length-append (encode_fields (layout_of ev) (values_of ev)) rest,
  length-encode_fields (layout_of ev) (values_of ev) wire,
)

values-encode :
    (ev : Event) (rest : List ℕ)
    → IsWire ev
    → decode_fields (layout_of ev) (encode ev ++ rest) ≡ values_of ev
unfolding encode IsWire
values-encode ev rest wire = decode_fields-encode (layout_of ev) (values_of ev) rest wire

-- The bytes of a record that has the type and the size of its payload, and whose fields hold values
-- of their types, are decoded to exactly that record, whatever bytes follow.
pub decode-encode :
    (ev : Event) (rest : List ℕ) → IsTagged ev → IsWire ev → decode (encode ev ++ rest) ≡ some ev
unfolding decode widths width
decode-encode (Event.process ev) rest tagged wire =
    let mem = encode (Event.process ev) ++ rest in
    let values = values-encode (Event.process ev) rest wire in
    let hdr = (header-front mem).0 ∙ ap to_header values in
    decode_as-select (read_header mem) mem
    ∙ select-process (read_header mem) (length mem) _ _ _ _ (ap (λ h. h.type) hdr ∙ tagged.0)
        (ap (λ h. h.size) hdr ∙ tagged.1) (length-encode (Event.process ev) rest wire)
    ∙ ap (λ vs. some (Event.process (to_process vs))) values
decode-encode (Event.file ev) rest tagged wire =
    let mem = encode (Event.file ev) ++ rest in
    let values = values-encode (Event.file ev) rest wire in
    let hdr = (header-front mem).1 ∙ ap to_header values in
    decode_as-select (read_header mem) mem
    ∙ select-file (read_header mem) (length mem) _ _ _ _ (ap (λ h. h.type) hdr ∙ tagged.0)
        (ap (λ h. h.size) hdr ∙ tagged.1) (length-encode (Event.file ev) rest wire)
    ∙ ap (λ vs. some (Event.file (to_file vs))) values
decode-encode (Event.syscall ev) rest tagged wire =
    let mem = encode (Event.syscall ev) ++ rest in
    let values = values-encode (Event.syscall ev) rest wire in
    let hdr = (header-front mem).2 ∙ ap to_header values in
    decode_as-select (read_header mem) mem
    ∙ select-syscall (read_header mem) (length mem) _ _ _ _ (ap (λ h. h.type) hdr ∙ tagged.0)
        (ap (λ h. h.size) hdr ∙ tagged.1) (length-encode (Event.syscall ev) rest wire)
    ∙ ap (λ vs. some (Event.syscall (to_syscall vs))) values
decode-encode (Event.network ev) rest tagged wire =
    let mem = encode (Event.network ev) ++ rest in
    let values = values-encode (Event.network ev) rest wire in
    let hdr = (header-front mem).3 ∙ ap to_header values in
    decode_as-select (read_header mem) mem
    ∙ select-network (read_header mem) (length mem) _ _ _ _ (ap (λ h. h.type) hdr ∙ tagged.0)
        (ap (λ h. h.size) hdr ∙ tagged.1) (length-encode (Event.network ev) rest wire)
    ∙ ap (λ vs. some (Event.network (to_network vs))) values

same_tag :
    {g h : EventHeader} {type size n : ℕ}
    → g ≡ h
    → g.type ≡ type
    → g.size ≡ size
    → size ≤ n
    → ((h.type ≡ type) × (h.size ≡ size)) × (h.size ≤ n)
same_tag same tag size whole = (
  (sym (ap (λ h. h.type) same) ∙ tag, sym (ap (λ h. h.size) same) ∙ size),
  omega (arith, ap (λ h. h.size) same, size, whole),
)

-- A record that the decoder gives has the type and the size of its payload, and the bytes are at
-- least as many as that size.
pub decode-IsTagged :
    (mem : List ℕ) (ev : Event)
    → decode mem ≡ some ev
    → IsTagged ev × ((header ev).size ≤ length mem)
unfolding decode
decode-IsTagged mem ev h =
    elim (select_cases (read_header mem) (length mem) _ _ _ _ ev
      (sym (decode_as-select (read_header mem) mem) ∙ h)) [
        | inl (is, tag, size, whole) ↦ rw is (same_tag (header-front mem).0 tag size whole)
        | inr (inl (is, tag, size, whole)) ↦ rw is (same_tag (header-front mem).1 tag size whole)
        | inr (inr (inl (is, tag, size, whole))) ↦
            rw is (same_tag (header-front mem).2 tag size whole)
        | inr (inr (inr (is, tag, size, whole))) ↦
            rw is (same_tag (header-front mem).3 tag size whole)
      ]
