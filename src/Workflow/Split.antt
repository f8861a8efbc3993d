-- ===== src/Workflow/Split.antt =====
-- The round trip of the front matter of workflow/loader.py, and its line endings.
use symphony_python.Prelude.{
  ℕ, ◌≡◌, ◌∙◌, ◌≢◌, refl, inl, inr, Bool-cases, ==_iff, true, false, some, List, [], ◌∷◌, ◌++◌,
  append_assoc, All, arith, ◌==◌, if◌then◌else◌,
}
use symphony_python.Text.{Text, text_eq, truthy, strip, is_space, rstrip_by}
use symphony_python.Json.{Value, Fields}
use symphony_python.Workflow.Loader.{
  ok, Decoded, decoded, replace_crlf, replace_cr, normalize_newlines, split_lines, join_lines,
  delimiter, is_delimiter, to_closing, split_front_matter, decode_front_matter, parse_workflow_text,
}

-- A code point does not occur in a text.
abbrev pub Lacks : ℕ → Text → Type 0
Lacks c s = All (λ d. d ≢ c) s

-- The lines of a front matter that its author may write: none holds a line feed, none is a
-- delimiter.
abbrev pub IsPlain : Text → Type 0
IsPlain line = Lacks 10 line × (is_delimiter line ≡ false)

abbrev pub all_lines : Text → List Text
all_lines s = (split_lines s).0 ∷ (split_lines s).1

split_lines-line :
    (line rest : Text) → Lacks 10 line → split_lines (line ++ 10 ∷ rest) ≡ (line, all_lines rest)
unfolding split_lines
split_lines-line [] rest h = refl
split_lines-line (c ∷ line) rest (h, hs) = ground (arith, split_lines-line line rest hs)

join_lines-◌∷◌ :
    (c : ℕ) (line : Text) (rest : List Text)
    → join_lines ((c ∷ line) ∷ rest) ≡ c ∷ join_lines (line ∷ rest)
unfolding join_lines
join_lines-◌∷◌ c line [] = refl
join_lines-◌∷◌ c line (next ∷ rest) = refl

join_lines-blank :
    (next : Text) (rest : List Text) → join_lines ([] ∷ next ∷ rest) ≡ 10 ∷ join_lines (next ∷ rest)
unfolding join_lines
join_lines-blank next rest = refl

join_lines-all_lines : (s : Text) → join_lines (all_lines s) ≡ s
unfolding split_lines
join_lines-all_lines [] = unfold join_lines in refl
join_lines-all_lines (c ∷ s) = elim (Bool-cases (c == 10)) [
  | inl e ↦ rw (e, (==_iff c 10).0 e, join_lines-blank, join_lines-all_lines s) refl
  | inr e ↦ rw (e, join_lines-◌∷◌ c, join_lines-all_lines s) refl
]

-- The text of lines that each end in a line feed
unfoldable pub unlines : List Text → Text
unlines [] = []
unlines (line ∷ lines) = line ++ 10 ∷ unlines lines

-- A workflow document with a front matter
unfoldable pub document : List Text → Text → Text
document front body = delimiter ++ 10 ∷ unlines (front ++ delimiter ∷ []) ++ body

all_lines-unlines :
    (lines : List Text) (body : Text)
    → All (Lacks 10) lines
    → all_lines (unlines lines ++ body) ≡ lines ++ all_lines body
unfolding unlines
all_lines-unlines [] body h = refl
all_lines-unlines (line ∷ lines) body (h, hs) =
    rw
      (
        append_assoc line (10 ∷ unlines lines) body,
        split_lines-line line (unlines lines ++ body) h,
        all_lines-unlines lines body hs,
      )
      refl

to_closing-plain :
    (front : List Text) (rest : List Text)
    → All IsPlain front
    → to_closing (front ++ delimiter ∷ rest) ≡ some (front, rest)
unfolding to_closing is_delimiter text_eq rstrip_by is_space
to_closing-plain [] rest h = refl
to_closing-plain (line ∷ front) rest ((h, plain), hs) =
    ground (arith, to_closing-plain front rest hs)

delimiter-Lacks : Lacks 10 delimiter
delimiter-Lacks = (omega arith, (omega arith, (omega arith, tt)))

plain-Lacks : (front : List Text) → All IsPlain front → All (Lacks 10) (front ++ delimiter ∷ [])
plain-Lacks [] h = (delimiter-Lacks, tt)
plain-Lacks (line ∷ front) ((h, plain), hs) = (h, plain-Lacks front hs)

-- The front matter and the body of a document come back.
split_front_matter-document :
    (front : List Text) (body : Text)
    → All IsPlain front
    → split_front_matter (document front body) ≡ ok (some (join_lines front), body)
unfolding split_front_matter document is_delimiter text_eq rstrip_by is_space
split_front_matter-document front body h =
    rw
      (
        split_lines-line delimiter (unlines (front ++ delimiter ∷ []) ++ body) delimiter-Lacks,
        all_lines-unlines (front ++ delimiter ∷ []) body (plain-Lacks front h),
        append_assoc front (delimiter ∷ []) (all_lines body),
        to_closing-plain front (all_lines body) h,
        join_lines-all_lines body,
      )
      refl

-- The text as it is written on Windows
unfoldable pub to_crlf : Text → Text
to_crlf [] = []
to_crlf (c ∷ s) = let rest = to_crlf s in if c == 10 then 13 ∷ 10 ∷ rest else c ∷ rest

replace_crlf-◌∷◌ : (c : ℕ) (s : Text) → c ≢ 13 → replace_crlf (c ∷ s) ≡ c ∷ replace_crlf s
unfolding replace_crlf
replace_crlf-◌∷◌ c [] h = refl
replace_crlf-◌∷◌ c (d ∷ s) h = ground arith

replace_crlf-pair : (s : Text) → replace_crlf (13 ∷ 10 ∷ s) ≡ 10 ∷ replace_crlf s
unfolding replace_crlf
replace_crlf-pair s = refl

replace_crlf-to_crlf : (s : Text) → Lacks 13 s → replace_crlf (to_crlf s) ≡ s
unfolding to_crlf
replace_crlf-to_crlf [] h = unfold replace_crlf in refl
replace_crlf-to_crlf (c ∷ s) (h, hs) = elim (Bool-cases (c == 10)) [
  | inl e ↦ rw (e, (==_iff c 10).0 e, replace_crlf-pair (to_crlf s), replace_crlf-to_crlf s hs) refl
  | inr e ↦ rw (e, replace_crlf-◌∷◌ c (to_crlf s) h, replace_crlf-to_crlf s hs) refl
]

replace_crlf_same : (s : Text) → Lacks 13 s → replace_crlf s ≡ s
replace_crlf_same [] h = unfold replace_crlf in refl
replace_crlf_same (c ∷ s) (h, hs) = rw (replace_crlf-◌∷◌ c s h, replace_crlf_same s hs) refl

replace_cr_same : (s : Text) → Lacks 13 s → replace_cr s ≡ s
unfolding replace_cr
replace_cr_same [] h = refl
replace_cr_same (c ∷ s) (h, hs) = ground (arith, replace_cr_same s hs)

normalize_newlines_same : (s : Text) → Lacks 13 s → normalize_newlines s ≡ s
unfolding normalize_newlines
normalize_newlines_same s h = rw (replace_crlf_same s h) (replace_cr_same s h)

normalize_newlines-to_crlf : (s : Text) → Lacks 13 s → normalize_newlines (to_crlf s) ≡ s
unfolding normalize_newlines
normalize_newlines-to_crlf s h = rw (replace_crlf-to_crlf s h) (replace_cr_same s h)

All-append {ℓ κ} :
    {A : Type ℓ} (P : A → Type κ) (xs ys : List A) → All P xs → All P ys → All P (xs ++ ys)
All-append P [] ys h hs = hs
All-append P (x ∷ xs) ys (h, rest) hs = (h, All-append P xs ys rest hs)

Lacks-unlines : (lines : List Text) → All (Lacks 13) lines → Lacks 13 (unlines lines)
unfolding unlines
Lacks-unlines [] h = tt
Lacks-unlines (line ∷ lines) (h, hs) =
    All-append (λ d. d ≢ 13) line (10 ∷ unlines lines) h (omega arith, Lacks-unlines lines hs)

Lacks-document :
    (front : List Text) (body : Text)
    → All (Lacks 13) front
    → Lacks 13 body
    → Lacks 13 (document front body)
unfolding document
Lacks-document front body h hs =
    let delimiter_lacks : Lacks 13 delimiter = (omega arith, (omega arith, (omega arith, tt))) in
    All-append (λ d. d ≢ 13) delimiter (10 ∷ unlines (front ++ delimiter ∷ []) ++ body)
      delimiter_lacks
      (
        omega arith,
        All-append (λ d. d ≢ 13) (unlines (front ++ delimiter ∷ [])) body
            (Lacks-unlines (front ++ delimiter ∷ [])
              (All-append (Lacks 13) front (delimiter ∷ []) h (delimiter_lacks, tt)))
            hs,
      )

-- A workflow file that is written with the line endings of Windows has the same result as the one
-- with plain line feeds, if the latter holds no carriage return.
pub parse_workflow_text-to_crlf :
    (safe_load : Text → Decoded) (text : Text)
    → Lacks 13 text
    → parse_workflow_text safe_load (to_crlf text) ≡ parse_workflow_text safe_load text
unfolding parse_workflow_text
parse_workflow_text-to_crlf safe_load text h =
    rw (normalize_newlines-to_crlf text h, normalize_newlines_same text h) refl

parse_workflow_text-plain :
    (safe_load : Text → Decoded) (front : List Text) (body : Text) (config : Fields)
    → All IsPlain front
    → All (Lacks 13) front
    → Lacks 13 body
    → truthy (strip (join_lines front)) ≡ true
    → safe_load (join_lines front) ≡ decoded (Value.obj config)
    → parse_workflow_text safe_load (document front body)
      ≡ ok (record { config = config; prompt_template = strip body })
unfolding parse_workflow_text decode_front_matter
parse_workflow_text-plain safe_load front body config plain h hs present loaded =
    rw
      (
        normalize_newlines_same (document front body) (Lacks-document front body h hs),
        split_front_matter-document front body plain,
        present,
        loaded,
      )
      refl

-- Of a document that is put together from the lines of a front matter and a body, parsing gives
-- the map that the front matter decodes to, and the trimmed body, whatever the body holds; and so
-- it does where every line feed is written as on Windows. The lines hold no line break and none is
-- a delimiter, the body holds no carriage return, and the front matter is not blank.
pub parse_workflow_text-document :
    (safe_load : Text → Decoded) (front : List Text) (body : Text) (config : Fields)
    → All IsPlain front
    → All (Lacks 13) front
    → Lacks 13 body
    → truthy (strip (join_lines front)) ≡ true
    → safe_load (join_lines front) ≡ decoded (Value.obj config)
    → (parse_workflow_text safe_load (document front body)
        ≡ ok (record { config = config; prompt_template = strip body }))
      × (parse_workflow_text safe_load (to_crlf (document front body))
          ≡ ok (record { config = config; prompt_template = strip body }))
parse_workflow_text-document safe_load front body config plain h hs present loaded =
    let parsed = parse_workflow_text-plain safe_load front body config plain h hs present loaded in
    (
      parsed,
      parse_workflow_text-to_crlf safe_load (document front body) (Lacks-document front body h hs)
          ∙ parsed,
    )
