-- ===== src/Config.antt =====
-- pkg/config/config.go: the references to the environment in a configuration, `{NAME-default}`, and the
-- conversion of texts. The environment, `unicode.ToLower` and `strconv.ParseFloat` are parameters.
pub mod References
use Prim.Native.Char.{Char, code}
use home_work_ad_processor_g.Prelude.{
  ◌==◌, ltb, not, Bool, true, false, ◌&&◌, ◌||◌, Option, none, some, String, str_eq, if◌then◌else◌,
  ℤ, atoi_checked,
}
use home_work_ad_processor_g.Command.Parser.{to_lower}

-- The `interface{}` of a configuration; `F` stands for float64.
mutual
  pub data Setting (F : Type 0) : Type 0 where
    text : String → Setting F
    boolean : Bool → Setting F
    int : ℤ → Setting F
    float : F → Setting F
    table : Table F → Setting F
    array : Settings F → Setting F

  -- A `map[string]interface{}`.
  pub data Table (F : Type 0) : Type 0 where
    no_entry : Table F
    entry : String → Setting F → Table F → Table F

  -- An `[]interface{}`.
  pub data Settings (F : Type 0) : Type 0 where
    no_item : Settings F
    item : Setting F → Settings F → Settings F

-- `[A-Z_]`.
abbrev pub is_name_char : Char → Bool
is_name_char c = (not (ltb (code c) 65) && ltb (code c) 91) || (code c == 95)

-- The longest run of `[A-Z_]` and the rest.
unfoldable pub name_run : String → String × String
name_run String.[] = ("", "")
name_run (String.◌∷◌ c s) =
    let (run, rest) = name_run s in
    if is_name_char c then (String.◌∷◌ c run, rest) else ("", String.◌∷◌ c s)

-- The text up to the first `}`, if there is one.
unfoldable pub before_brace : String → Option String
before_brace String.[] = none
before_brace (String.◌∷◌ c s) =
    let rest = before_brace s in
    if code c == 125
    then some ""
    else elim rest as (λ o. Option String) [ none ↦ none | some found ↦ some (String.◌∷◌ c found) ]

abbrev pub after_name : String × String → Option (String × String)
unfolding before_brace
after_name (String.[], rest) = none
after_name (String.◌∷◌ c name, String.[]) = none
after_name (String.◌∷◌ c name, String.◌∷◌ d rest) =
    if code d == 45
    then elim (before_brace rest) as (λ o. Option (String × String)) [
      | none ↦ none
      | some default ↦ some (String.◌∷◌ c name, default)
    ]
    else none

-- The first match of `\{([A-Z_]+)-([^}]*)\}`, with its two groups.
unfoldable pub find_reference : String → Option (String × String)
unfolding name_run before_brace
find_reference String.[] = none
find_reference (String.◌∷◌ c s) =
    let rest = find_reference s in
    if code c == 123
    then elim (after_name (name_run s)) as (λ o. Option (String × String)) [
      | none ↦ rest
      | some found ↦ some found
    ]
    else rest

module _ {F : Type 0} (lower : Char → Char) (parse_float : String → Option F) where
  abbrev pub number_or_text : String → Option ℤ → Option F → Setting F
  number_or_text value (some n) x = Setting.int n
  number_or_text value none (some x) = Setting.float x
  number_or_text value none none = Setting.text value

  -- `convertToType`.
  unfoldable pub convert_to_type : String → Setting F
  unfolding to_lower atoi_checked
  convert_to_type value =
      if str_eq value ""
      then Setting.text ""
      else if str_eq (to_lower lower value) "true"
      then Setting.boolean true
      else if str_eq (to_lower lower value) "false"
      then Setting.boolean false
      else number_or_text value (atoi_checked value) (parse_float value)

  -- `convertValue`.
  unfoldable pub convert_value : String → String → Setting F
  unfolding convert_to_type
  convert_value value default =
      if str_eq default ""
      then Setting.text value
      else if str_eq value ""
      then convert_to_type default
      else convert_to_type value

module _ {F : Type 0} (lower : Char → Char) (parse_float : String → Option F)
    (getenv : String → String) where
  abbrev pub referred : String → Option (String × String) → Setting F
  referred whole none = Setting.text whole
  referred whole (some (name, default)) =
      if not (str_eq (getenv name) "")
      then convert_value lower parse_float (getenv name) default
      else convert_value lower parse_float default default

  -- `processValue` and `processEnvPatterns`.
  unfoldable mutual
    unfolding find_reference convert_value

    pub process_value : Setting F → Setting F
    process_value (Setting.text s) = referred s (find_reference s)
    process_value (Setting.boolean b) = Setting.boolean b
    process_value (Setting.int n) = Setting.int n
    process_value (Setting.float x) = Setting.float x
    process_value (Setting.table t) = Setting.table (process_env_patterns t)
    process_value (Setting.array l) = Setting.array (process_items l)

    pub process_env_patterns : Table F → Table F
    process_env_patterns Table.no_entry = Table.no_entry
    process_env_patterns (Table.entry key v t) =
        Table.entry key (process_value v) (process_env_patterns t)

    pub process_items : Settings F → Settings F
    process_items Settings.no_item = Settings.no_item
    process_items (Settings.item v l) = Settings.item (process_value v) (process_items l)
