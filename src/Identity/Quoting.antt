-- ===== src/Identity/Quoting.antt =====
-- The quoting of a schema's name (src/classes/queue-identity.ts).
use elephantmq.Base.{
  ℕ, ap, ◌≡◌, ◌∙◌, [], ◌∷◌, some, append_assoc, none, refl, ◌++◌, false, if◌then◌else◌, Option,
  ◌==◌, inr, sym, Bool-cases, inl, ==_iff, ◌-◌, ◌≤◌, arith, ◌≢◌, leb, true,
}
use elephantmq.Keys.{Text}
use elephantmq.Identity.{doubled_quotes, escape_schema, quote}
use elephantmq.Enqueue.{utf8_size, length_in_utf8_bytes}

abbrev with_char : ℕ → Option (Text × Text) → Option (Text × Text)
with_char c none = none
with_char c (some (cs, rest)) = some (c ∷ cs, rest)

-- How SQL reads the rest of a quoted identifier: up to the first quote that is not doubled.
unfoldable pub read_quoted : Text → Option (Text × Text)
read_quoted [] = none
read_quoted (c ∷ []) = if c == quote then some ([], []) else none
read_quoted (c ∷ d ∷ rest) =
    let doubled = with_char quote (read_quoted rest) in
    let plain = with_char c (read_quoted (d ∷ rest)) in
    if c == quote then (if d == quote then doubled else some ([], d ∷ rest)) else plain

-- A name is cut off behind 63 bytes, at a whole character.
unfoldable pub cut_off : ℕ → Text → Text
cut_off n [] = []
cut_off n (c ∷ cs) =
    let rest = cut_off (n - utf8_size c) cs in if leb (utf8_size c) n then c ∷ rest else []

cut_off_lem : (n : ℕ) (name : Text) → length_in_utf8_bytes name ≤ n → cut_off n name ≡ name
unfolding cut_off length_in_utf8_bytes
cut_off_lem n [] h = refl
cut_off_lem n (c ∷ cs) h =
    let fits : leb (utf8_size c) n ≡ true = ground (arith, h) in
    rw fits (ap (λ l. c ∷ l) (cut_off_lem (n - utf8_size c) cs (omega (arith, h))))

-- An empty name is refused.
abbrev named : Option (Text × Text) → Option (Text × Text)
named none = none
named (some ([], rest)) = none
named (some (c ∷ cs, rest)) = some (cut_off 63 (c ∷ cs), rest)

-- How PostgreSQL reads a quoted identifier at the start of a text, and what follows it.
unfoldable pub read_identifier : Text → Option (Text × Text)
unfolding read_quoted cut_off
read_identifier [] = none
read_identifier (c ∷ rest) = if c == quote then named (read_quoted rest) else none

-- What follows does not begin with a quote.
abbrev pub IsOutside : Text → Type 0
IsOutside [] = Unit {0}
IsOutside (c ∷ cs) = (c == quote) ≡ false

read_quoted-plain :
    (c : ℕ) (l : Text) → (c == quote) ≡ false → read_quoted (c ∷ l) ≡ with_char c (read_quoted l)
unfolding read_quoted
read_quoted-plain c [] n = rw n
read_quoted-plain c (d ∷ l) n = rw n

read_quoted-doubled :
    (schema rest : Text)
    → IsOutside rest
    → read_quoted (doubled_quotes schema ++ quote ∷ rest) ≡ some (schema, rest)
unfolding read_quoted doubled_quotes
read_quoted-doubled [] [] o = refl
read_quoted-doubled [] (c ∷ rest) o = rw o
read_quoted-doubled (c ∷ schema) rest o =
    let ih = read_quoted-doubled schema rest o in
    elim (Bool-cases (c == quote)) [
      | inl same ↦
          let e : quote ≡ c = sym ((==_iff c quote).0 same) in
          rw same (ap (with_char quote) ih ∙ ap (λ d. some (d ∷ schema, rest)) e)
      | inr other ↦
          rw other (
            read_quoted-plain c (doubled_quotes schema ++ quote ∷ rest) other ∙ ap (with_char c) ih)
    ]

-- The escaped name of a schema that is not empty and has at most 63 bytes, quotes included, is read by
-- PostgreSQL as one identifier with that name, and nothing of what follows it, where that does not begin
-- with a quote.
pub read_identifier-escape_schema :
    (schema rest : Text)
    → schema ≢ []
    → length_in_utf8_bytes schema ≤ 63
    → IsOutside rest
    → read_identifier (escape_schema schema ++ rest) ≡ some (schema, rest)
unfolding read_identifier escape_schema
read_identifier-escape_schema [] rest filled short o = absurd (filled refl)
read_identifier-escape_schema (c ∷ cs) rest filled short o =
    ap (λ l. named (read_quoted l)) (append_assoc (doubled_quotes (c ∷ cs)) (quote ∷ []) rest)
    ∙ ap named (read_quoted-doubled (c ∷ cs) rest o)
    ∙ ap (λ l. some (l, rest)) (cut_off_lem 63 (c ∷ cs) short)
