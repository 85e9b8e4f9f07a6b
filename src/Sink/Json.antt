-- ===== src/Sink/Json.antt =====
-- An independent reading of JSON: what a line of compact JSON is, and what a JSON string stands for.
use e_trace_gen_e_bpfevent_t.Base.{
  ℕ, zero, suc, ◌+◌, ◌-◌, ◌*◌, Bool, ◌||◌, ◌&&◌, ◌==◌, ltb, leb, if◌then◌else◌, List, [], ◌∷◌,
  Option, none, some, is_digit,
}

-- Where a scan of one line stands, with the number of objects that are open. The values are strings,
-- numbers and objects with a member; a number is digits with an optional minus, and zeros in front of
-- it are not checked. Bytes from 128 on may stand in strings, and nowhere else; whether they are
-- UTF-8 is not checked.
pub data Place : Type 0 where
  start : Place
  opened : ℕ → Place
  next_key : ℕ → Place
  in_key : ℕ → Place
  colon : ℕ → Place
  value : ℕ → Place
  minus : ℕ → Place
  in_number : ℕ → Place
  in_text : ℕ → Place
  escape : ℕ → Place
  unicode : ℕ → ℕ → Place
  closed : ℕ → Place
  finished : Place
  ended : Place
  rejected : Place

abbrev pub is_hex : ℕ → Bool
is_hex c = is_digit c || leb 97 c && leb c 102 || leb 65 c && leb c 70

-- The characters after a backslash, `u` aside.
abbrev pub is_short_escape : ℕ → Bool
is_short_escape c =
    c == 34 || c == 92 || c == 47 || c == 98 || c == 102 || c == 110 || c == 114 || c == 116

-- After a value: the next member, or the end of the object.
abbrev pub after_value : ℕ → ℕ → Place
after_value (suc (suc d)) c =
    if c == 44
    then Place.next_key (suc (suc d))
    else if c == 125
    then Place.closed (suc d)
    else Place.rejected
after_value (suc zero) c =
    if c == 44 then Place.next_key 1 else if c == 125 then Place.finished else Place.rejected
after_value zero c = Place.rejected

abbrev pub begin_value : ℕ → ℕ → Place
begin_value d c =
    if c == 34
    then Place.in_text d
    else if c == 123
    then Place.opened (suc d)
    else if c == 45
    then Place.minus d
    else if is_digit c
    then Place.in_number d
    else Place.rejected

unfoldable pub step : Place → ℕ → Place
step Place.start c = if c == 123 then Place.opened 1 else Place.rejected
step (Place.opened d) c = if c == 34 then Place.in_key d else Place.rejected
step (Place.next_key d) c = if c == 34 then Place.in_key d else Place.rejected
step (Place.in_key d) c =
    if c == 34
    then Place.colon d
    else if c == 92 || ltb c 32
    then Place.rejected
    else Place.in_key d
step (Place.colon d) c = if c == 58 then Place.value d else Place.rejected
step (Place.value d) c = begin_value d c
step (Place.minus d) c = if is_digit c then Place.in_number d else Place.rejected
step (Place.in_number d) c = if is_digit c then Place.in_number d else after_value d c
step (Place.in_text d) c =
    if c == 34
    then Place.closed d
    else if c == 92
    then Place.escape d
    else if ltb c 32
    then Place.rejected
    else Place.in_text d
step (Place.escape d) c =
    if is_short_escape c
    then Place.in_text d
    else if c == 117
    then Place.unicode 3 d
    else Place.rejected
step (Place.unicode k d) c = elim k [
  | zero ↦ if is_hex c then Place.in_text d else Place.rejected
  | suc j ↦ if is_hex c then Place.unicode j d else Place.rejected
]
step (Place.closed d) c = after_value d c
step Place.finished c = if c == 10 then Place.ended else Place.rejected
step Place.ended c = Place.rejected
step Place.rejected c = Place.rejected

unfoldable pub scan : Place → List ℕ → Place
unfolding step
scan place [] = place
scan place (c ∷ s) = scan (step place c) s

-- What a string of JSON stands for: bytes, with the escapes up to `\u00ff` as one byte.
pub data Reading : Type 0 where
  plain : Reading
  after_backslash : Reading
  digits : ℕ → ℕ → Reading

abbrev pub hex_value : ℕ → Option ℕ
hex_value c =
    if is_digit c
    then some (c - 48)
    else if leb 97 c && leb c 102
    then some (c - 87)
    else if leb 65 c && leb c 70
    then some (c - 55)
    else none

abbrev pub short_escape : ℕ → Option ℕ
short_escape c =
    if c == 34 || c == 92 || c == 47
    then some c
    else if c == 98
    then some 8
    else if c == 102
    then some 12
    else if c == 110
    then some 10
    else if c == 114
    then some 13
    else if c == 116
    then some 9
    else none

abbrev pub cons_to : ℕ → Option (List ℕ) → Option (List ℕ)
cons_to c none = none
cons_to c (some s) = some (c ∷ s)

unfoldable pub read : Reading → List ℕ → Option (List ℕ)
read Reading.plain [] = some []
read _ [] = none
read Reading.plain (c ∷ s) =
    let here = cons_to c (read Reading.plain s) in
    let later = read Reading.after_backslash s in
    if c == 92 then later else if c == 34 || ltb c 32 then none else here
read Reading.after_backslash (c ∷ s) =
    let unicode = read (Reading.digits 3 0) s in
    let rest = read Reading.plain s in
    if c == 117 then unicode else elim (short_escape c) [ none ↦ none | some d ↦ cons_to d rest ]
read (Reading.digits k n) (c ∷ s) = elim (hex_value c) [
  | none ↦ none
  | some d ↦ elim k [
    | zero ↦ if ltb (n * 16 + d) 256 then cons_to (n * 16 + d) (read Reading.plain s) else none
    | suc j ↦ read (Reading.digits j (n * 16 + d)) s
  ]
]
