-- ===== src/Workflow/Loader.antt =====
-- `parse_workflow_text` of workflow/loader.py. The YAML parser is an argument.
use symphony_python.Prelude.{
  Bool, Option, none, some, List, [], ◌∷◌, ◌++◌, ◌&&◌, ◌==◌, if◌then◌else◌,
}
use symphony_python.Text.{Text, codes, text_eq, truthy, strip, is_space, rstrip_by}
use symphony_python.Json.{Value, Fields}

-- The errors of the loader that a text can bring about
pub data ParseError : Type 0 where
  unterminated : ParseError
  invalid_yaml : ParseError
  not_a_map : ParseError

pub data Parsed {ℓ} (A : Type ℓ) : Type ℓ where
  ok : A → Parsed A
  err : ParseError → Parsed A

infixl 5 ◌>>=◌
abbrev pub ◌>>=◌ {ℓ κ} : {A : Type ℓ} {B : Type κ} → Parsed A → (A → Parsed B) → Parsed B
ok a >>= f = f a
err e >>= f = err e

-- `text.replace("\r\n", "\n")`
unfoldable pub replace_crlf : Text → Text
replace_crlf [] = []
replace_crlf (c ∷ []) = c ∷ []
replace_crlf (c ∷ d ∷ s) =
    let after_pair = replace_crlf s in
    let after_one = replace_crlf (d ∷ s) in
    if (c == 13) && (d == 10) then 10 ∷ after_pair else c ∷ after_one

-- `text.replace("\r", "\n")`
unfoldable pub replace_cr : Text → Text
replace_cr [] = []
replace_cr (c ∷ s) = (if c == 13 then 10 else c) ∷ replace_cr s

-- `_normalize_newlines`
unfoldable pub normalize_newlines : Text → Text
normalize_newlines text = replace_cr (replace_crlf text)

-- `text.split("\n")`: the first line, and the others
unfoldable pub split_lines : Text → Text × List Text
split_lines [] = ([], [])
split_lines (c ∷ s) =
    let (line, rest) = split_lines s in if c == 10 then ([], line ∷ rest) else (c ∷ line, rest)

-- `"\n".join(lines)`
unfoldable pub join_lines : List Text → Text
join_lines [] = []
join_lines (line ∷ []) = line
join_lines (line ∷ next ∷ rest) = line ++ 10 ∷ join_lines (next ∷ rest)

abbrev pub delimiter : Text
delimiter = codes "---"

-- `line.rstrip() == FRONT_MATTER_DELIMITER`
unfoldable pub is_delimiter : Text → Bool
is_delimiter line = text_eq (rstrip_by is_space line) delimiter

abbrev pub with_line : Text → Option (List Text × List Text) → Option (List Text × List Text)
with_line line none = none
with_line line (some (front, body)) = some (line ∷ front, body)

-- The loop over the lines behind the opening delimiter: the lines before the closing one, and
-- those behind it
unfoldable pub to_closing : List Text → Option (List Text × List Text)
to_closing [] = none
to_closing (line ∷ rest) =
    let later = to_closing rest in
    if is_delimiter line then some ([], rest) else with_line line later

abbrev pub closed : Option (List Text × List Text) → Parsed (Option Text × Text)
closed none = err unterminated
closed (some (front, body)) = ok (some (join_lines front), join_lines body)

-- `_split_front_matter`
unfoldable pub split_front_matter : Text → Parsed (Option Text × Text)
split_front_matter text =
    let (first, rest) = split_lines text in
    if is_delimiter first then closed (to_closing rest) else ok (none, text)

-- What `yaml.safe_load` returns, or that it raises
pub data Decoded : Type 0 where
  decoded : Value → Decoded
  yaml_error : Decoded

abbrev as_map : Decoded → Parsed Fields
as_map (decoded (Value.obj fields)) = ok fields
as_map (decoded v) = err not_a_map
as_map yaml_error = err invalid_yaml

pub record WorkflowDefinition : Type 0 where
  pub config : Fields
  pub prompt_template : Text

module _ (safe_load : Text → Decoded) where
  -- `_decode_front_matter`
  unfoldable pub decode_front_matter : Text → Parsed Fields
  decode_front_matter raw = if truthy (strip raw) then as_map (safe_load raw) else ok Fields.end

  abbrev pub config_of : Option Text → Parsed Fields
  config_of none = ok Fields.end
  config_of (some raw) = decode_front_matter raw

  -- `parse_workflow_text`
  unfoldable pub parse_workflow_text : Text → Parsed WorkflowDefinition
  parse_workflow_text text =
      split_front_matter (normalize_newlines text) >>= λ (front_matter, body).
      config_of front_matter >>= λ config.
      ok (record { config = config; prompt_template = strip body })
