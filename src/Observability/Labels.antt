-- ===== src/Observability/Labels.antt =====
-- `_label` of observability.py against what Prometheus reads.
use Prim.Native.Char.{Char}
use Prim.Native.String.{[], ◌∷◌}
use text.Mathlib.TextLemmas.{nil-append, cons-append, append-nil, append_assoc}
use agent_trust_ops.Prelude.{
  String, ◌≡◌, refl, sym, ap, ◌∙◌, Bool, true, false, ◌||◌, Option, none, some, ◌==◌, ◌<>◌, eq_iff,
  inl, inr, Bool-cases, if◌then◌else◌,
}
use agent_trust_ops.Observability.{replace_char, label}

-- Adds a character to a value that was read.
unfoldable pub prepend : String → Option (String × String) → Option (String × String)
prepend c none = none
prepend c (some (value, rest)) = some (c <> value, rest)

-- The text format of Prometheus, not code of the repository: after the quote that opens a label's
-- value, its reader answers the value and the text after the quote that closes it. Only a
-- backslash, a quote and an `n` stand after a backslash, and a line does not end inside a value.
-- The flag says that a backslash was read.
unfoldable pub read_label : Bool → String → Option (String × String)
unfolding prepend
read_label false [] = none
read_label false (c ∷ s) =
    let escaped = read_label true s in
    let plain = read_label false s in
    if (c ∷ []) == "\""
    then some ("", s)
    else (if (c ∷ []) == "\\"
        then escaped
        else (if (c ∷ []) == "\n" then none else prepend (c ∷ []) plain))
read_label true [] = none
read_label true (c ∷ s) =
    let rest = read_label false s in
    if (c ∷ []) == "n"
    then prepend "\n" rest
    else (if (c ∷ []) == "\\" || (c ∷ []) == "\"" then prepend (c ∷ []) rest else none)

replace_append :
    (k t a b : String) → replace_char k t (a <> b) ≡ replace_char k t a <> replace_char k t b
unfolding replace_char
replace_append k t [] b =
    ap (replace_char k t) (nil-append b) ∙ sym (nil-append (replace_char k t b))
replace_append k t (x ∷ a) b =
    let first = if (x ∷ []) == k then t else x ∷ [] in
    ap (replace_char k t) (cons-append x a b)
    ∙ ap (λ s. first <> s) (replace_append k t a b)
    ∙ sym (append_assoc first (replace_char k t a) (replace_char k t b))

label_append : (a b : String) → label (a <> b) ≡ label a <> label b
unfolding label
label_append a b =
    ap (λ s. replace_char "\"" "\\\"" (replace_char "\n" "\\n" s)) (replace_append "\\" "\\\\" a b)
    ∙ ap (replace_char "\"" "\\\"") (replace_append "\n" "\\n" _ _)
    ∙ replace_append "\"" "\\\"" _ _

cons_append : (c : Char) (s : String) → c ∷ s ≡ (c ∷ []) <> s
cons_append c s = sym (cons-append c [] s ∙ ap (λ t. c ∷ t) (nil-append s))

two_append : (a b : Char) (s : String) → (a ∷ b ∷ []) <> s ≡ a ∷ b ∷ s
two_append a b s = cons-append a (b ∷ []) s ∙ ap (λ t. a ∷ t) (sym (cons_append b s))

kept_char : (k t : String) (c : Char) → ((c ∷ []) == k) ≡ false → replace_char k t (c ∷ []) ≡ c ∷ []
unfolding replace_char
kept_char k t c e = rw e (append-nil (c ∷ []))

label_plain :
    (c : Char)
    → ((c ∷ []) == "\\") ≡ false
    → ((c ∷ []) == "\n") ≡ false
    → ((c ∷ []) == "\"") ≡ false
    → label (c ∷ []) ≡ c ∷ []
unfolding label
label_plain c e f g =
    ap (λ s. replace_char "\"" "\\\"" (replace_char "\n" "\\n" s)) (kept_char "\\" "\\\\" c e)
    ∙ ap (replace_char "\"" "\\\"") (kept_char "\n" "\\n" c f)
    ∙ kept_char "\"" "\\\"" c g

-- Prometheus reads a character as it was written.
read_one :
    (c : Char) (s : String)
    → read_label false (label (c ∷ []) <> s) ≡ prepend (c ∷ []) (read_label false s)
unfolding read_label
read_one c s = elim (Bool-cases ((c ∷ []) == "\\")) [
  | inl e ↦
      rw ((eq_iff (c ∷ []) "\\").0 e)
        (unfold label replace_char in ap (read_label false) (two_append "\\" "\\" s))
  | inr e ↦ elim (Bool-cases ((c ∷ []) == "\n")) [
    | inl f ↦
        rw ((eq_iff (c ∷ []) "\n").0 f)
          (unfold label replace_char in ap (read_label false) (two_append "\\" "n" s))
    | inr f ↦ elim (Bool-cases ((c ∷ []) == "\"")) [
      | inl g ↦
          rw ((eq_iff (c ∷ []) "\"").0 g)
            (unfold label replace_char in ap (read_label false) (two_append "\\" "\"" s))
      | inr g ↦ rw (label_plain c e f g, ← cons_append c s, e, f, g) refl
    ]
  ]
]

prepend_first :
    (c : Char) (s rest : String) → prepend (c ∷ []) (some (s, rest)) ≡ some (c ∷ s, rest)
unfolding prepend
prepend_first c s rest = ap (λ t. some (t, rest)) (sym (cons_append c s))

label_empty : label "" ≡ ""
unfolding label replace_char
label_empty = refl

closing_quote : (rest : String) → read_label false ("\"" ∷ rest) ≡ some ("", rest)
unfolding read_label
closing_quote rest = refl

-- After the opening quote of a label, Prometheus reads, from the value that `_label` writes, a
-- closing quote and any text, that value and that text.
pub read_label-label :
    (s rest : String) → read_label false (label s <> ("\"" <> rest)) ≡ some (s, rest)
read_label-label [] rest =
    ap (λ t. read_label false (t <> ("\"" <> rest))) label_empty
    ∙ ap (read_label false) (nil-append ("\"" <> rest) ∙ sym (cons_append "\"" rest))
    ∙ closing_quote rest
read_label-label (c ∷ s) rest =
    ap (λ t. read_label false (label t <> ("\"" <> rest))) (cons_append c s)
    ∙ ap (λ t. read_label false (t <> ("\"" <> rest))) (label_append (c ∷ []) s)
    ∙ ap (read_label false) (append_assoc (label (c ∷ [])) (label s) ("\"" <> rest))
    ∙ read_one c (label s <> ("\"" <> rest))
    ∙ ap (prepend (c ∷ [])) (read_label-label s rest)
    ∙ prepend_first c s rest
