-- ===== src/Json.antt =====
-- What the code uses of nlohmann::json, of the validator of JSON schemas and of fmt, none of which
-- is part of the repository. A text that names a file is read as its bytes.
use mochi_warabi.Prelude.{ℕ, ◌≡◌, String, Bool, List, Option}
use mochi_warabi.Run.{Run, done}

pub record Json : Type 1 where
  pub Value : Type 0
  -- `json::object()`
  pub object : Value
  -- `json::parse`, and `dump`
  pub parse : String → Run Value
  pub dump : Value → String
  -- `what()` of the error of `validate` against the schema, by the schema's name
  pub violation : String → Value → Option String
  pub contains : Value → String → Bool
  -- `value(key, default)`, which throws when the value has another type
  pub value_text : Value → String → String → Run String
  pub value_bool : Value → String → Bool → Run Bool
  pub value_size : Value → String → ℕ → Run ℕ
  pub value_object : Value → String → Value → Run Value
  pub value_path : Value → String → List ℕ → Run (List ℕ)
  -- `[key].get_ref<const std::string&>()`, and `[key].get<size_t>()`
  pub get_text : Value → String → Run String
  pub get_path : Value → String → Run (List ℕ)
  pub get_size : Value → String → Run ℕ
  pub get : Value → String → Value
  -- `config[key] = ...`
  pub set_path : Value → String → List ℕ → Value
  pub set_bool : Value → String → Bool → Value
  pub set_text : Value → String → String → Value
  pub set_value : Value → String → Value → Value
  -- `update(other, true)`, which merges objects
  pub update : Value → Value → Value
  -- `fmt::format`, with the texts, the file names and the numbers that it prints
  pub format : String → String → String
  pub format_path : String → List ℕ → String → String
  pub format_code : String → ℕ → String

-- What nlohmann::json documents of a value that was printed.
pub record IsJson (J : Json) : Type 0 where
  pub parse_dump : (v : J.Value) → J.parse (J.dump v) ≡ done v
