-- ===== src/Sink/Lines.antt =====
-- Every line that the sink writes has the form of a JSON object: its pieces are scanned one by one.
use Prim.Native.String.{String}
use e_trace_gen_e_bpfevent_t.Base.{
  ℕ, ◌≡◌, refl, ap, ◌∙◌, Bool, true, not, ◌&&◌, ◌==◌, ltb, if_keeps, if◌then◌else◌, List, [], ◌∷◌,
  ◌++◌, Option, none, some, codes, inl, inr, Bool-cases, Option-cases, arith,
}
use e_trace_gen_e_bpfevent_t.Schema.{Event, EventHeader, header}
use e_trace_gen_e_bpfevent_t.Model.Canonical.{CanonicalEvent}
use e_trace_gen_e_bpfevent_t.Registry.Entity.{ProcessEntity}
use e_trace_gen_e_bpfevent_t.Sink.Labels.{label}
use e_trace_gen_e_bpfevent_t.Sink.Body.{
  Piece, literal, number, integer, escaped, hex, named, piece_text, text_of, write_header,
  write_process_info,
}
use e_trace_gen_e_bpfevent_t.Sink.Line.{serialize, identity, event_fields}
use e_trace_gen_e_bpfevent_t.Sink.Json.{Place, step, scan}
use e_trace_gen_e_bpfevent_t.Sink.WellFormed.{
  scan-append, scan-number, scan-integer, scan-escaped, scan-hex, plain-byte,
}

-- Text that stands for itself in a string.
is_plain : List ℕ → Bool
is_plain [] = true
is_plain (c ∷ s) = not (c == 34) && not (c == 92) && not (ltb c 32) && is_plain s

names_plain : List (ℕ × String) → Bool
unfolding is_plain
names_plain [] = true
names_plain ((k, name) ∷ names) = is_plain (codes name) && names_plain names

scan-plain : (d : ℕ) (s : List ℕ) → is_plain s ≡ true → scan (Place.in_text d) s ≡ Place.in_text d
unfolding is_plain scan
scan-plain d [] h = refl
scan-plain d (c ∷ s) h =
    ap (λ p. scan p s) (plain-byte d c (ground arith) (ground arith) (ground arith))
    ∙ scan-plain d s (ground arith)

scan-label :
    (d n : ℕ) (names : List (ℕ × String))
    → names_plain names ≡ true
    → scan (Place.in_text d) (codes (label names n)) ≡ Place.in_text d
unfolding names_plain label
scan-label d n [] h = scan-plain d (codes "unknown") refl
scan-label d n ((k, name) ∷ names) h =
    if_keeps (λ (s : String). scan (Place.in_text d) (codes s) ≡ Place.in_text d) (n == k)
      (scan-plain d (codes name) (ground arith)) (scan-label d n names (ground arith))

-- Where the scan stands after a piece, when the piece may stand there.
place_after : Piece → Place → Option Place
unfolding scan names_plain
place_after (literal s) place = some (scan place (codes s))
place_after (number n) (Place.value d) = some (Place.in_number d)
place_after (integer z) (Place.value d) = some (Place.in_number d)
place_after (escaped s) (Place.in_text d) = some (Place.in_text d)
place_after (hex bytes) (Place.in_text d) = some (Place.in_text d)
place_after (named names n) (Place.in_text d) =
    if names_plain names then some (Place.in_text d) else none
place_after _ _ = none

places_after : List Piece → Place → Option Place
unfolding place_after
places_after [] place = some place
places_after (p ∷ ps) place = elim (place_after p place) [
  | none ↦ none
  | some q ↦ places_after ps q
]

place_after_lem :
    (p : Piece) (place q : Place) → place_after p place ≡ some q → scan place (piece_text p) ≡ q
unfolding place_after piece_text
place_after_lem (literal s) place q h = ground arith
place_after_lem (number n) (Place.value d) q h = scan-number d n ∙ ground arith
place_after_lem (integer z) (Place.value d) q h = scan-integer d z ∙ ground arith
place_after_lem (escaped s) (Place.in_text d) q h = scan-escaped d s ∙ ground arith
place_after_lem (hex bytes) (Place.in_text d) q h = scan-hex d bytes ∙ ground arith
place_after_lem (named names n) (Place.in_text d) q h = elim (Bool-cases (names_plain names)) [
  | inl plain ↦ scan-label d n names plain ∙ ground arith
  | inr other ↦ ground arith
]
place_after_lem _ _ q h = cc h

places_after_lem :
    (ps : List Piece) (place q : Place)
    → places_after ps place ≡ some q
    → scan place (text_of ps) ≡ q
unfolding places_after text_of scan
places_after_lem [] place q h = ground arith
places_after_lem (p ∷ ps) place q h = elim (Option-cases (place_after p place)) [
  | inl stuck ↦ ground arith
  | inr (here, at) ↦
      scan-append place (piece_text p) (text_of ps)
      ∙ ap (λ x. scan x (text_of ps)) (place_after_lem p place here at)
      ∙ places_after_lem ps here q (ground arith)
]

-- The fields of each payload end the object.
event_fields-end :
    (raw : Event) (pe : Option ProcessEntity)
    → places_after (event_fields raw pe ++ (literal "}\n" ∷ [])) (Place.in_number 1)
      ≡ some Place.ended
unfolding places_after step is_plain
event_fields-end (Event.process ev) pe = refl
event_fields-end (Event.file ev) pe = refl
event_fields-end (Event.syscall ev) pe = refl
event_fields-end (Event.network ev) pe = refl

body-end :
    (h : EventHeader) (pe : Option ProcessEntity) (subject object : ℕ) (raw : Event)
    → places_after
        (literal "{"
            ∷ (write_header h
                ++ write_process_info h pe
                ++ identity subject object
                ++ event_fields raw pe)
          ++ (literal "}\n" ∷ []))
        Place.start
      ≡ some Place.ended
unfolding places_after step is_plain
body-end h pe subject object raw =
    if_keeps
      (λ (ps : List Piece).
        places_after ((ps ++ event_fields raw pe) ++ (literal "}\n" ∷ [])) (Place.in_number 1)
        ≡ some Place.ended)
      (not (object == 0)) {x = literal ",\"object_entity_id\":" ∷ number object ∷ []} {y = []}
      (event_fields-end raw pe) (event_fields-end raw pe)

-- Whatever the event and the entity hold, the line that the sink writes has the form of one JSON
-- object and a newline at its end, as `scan` of Sink/Json reads it: every string, number, member and
-- object is complete, no byte of a text ends its string, and there is no other newline and no
-- control byte. Whether the bytes from 128 on are UTF-8, and zeros in front of numbers, are not
-- part of that form.
pub serialize-scan :
    (event : CanonicalEvent) (pe : Option ProcessEntity)
    → scan Place.start (serialize event pe) ≡ Place.ended
unfolding serialize
serialize-scan event pe =
    places_after_lem _ Place.start Place.ended
      (body-end (header event.raw) pe event.subject.id event.object_ref.id event.raw)
