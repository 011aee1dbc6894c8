-- ===== src/Logger.antt =====
-- pkg/logger/logger.go: the fields that a message is logged with, and the level. What logrus does with
-- an entry, and its parsing of a level, are parameters. A value of an interface type is a text or something else.
use margin_offer_system.Base.{
  ◌≡◌, refl, ◌∙◌, String, Option, none, some, List, [], ◌∷◌, ◌==◌, if◌then◌else◌, arith,
  Option-cases, inl, inr,
}
use margin_offer_system.Base.GoMap.{Assoc, lookup, insert, lookup-insert}
use margin_offer_system.Types.Pool.Bytes.{Decoded, ok, err}

pub data Value (V : Type 0) : Type 0 where
  text : String → Value V
  other : V → Value V

-- The fields of a logrus entry.
abbrev pub Entry : Type 0 → Type 0
Entry V = Assoc (Value V)

module _ {V : Type 0} where
  -- `WithField`
  unfoldable pub with_field : String → Value V → Entry V → Entry V
  unfolding insert
  with_field key value entry = insert key value entry

  -- `WithFields`, over a map of fields.
  unfoldable pub with_fields : Assoc (Value V) → Entry V → Entry V
  unfolding with_field
  with_fields [] entry = entry
  with_fields ((key, value) ∷ fields) entry = with_fields fields (with_field key value entry)

  -- The loop of `logWithFields`: a key that is no text is passed over with its value, and a last
  -- key without a value is left out.
  unfoldable pub log_with_fields : List (Value V) → Entry V → Entry V
  unfolding with_field
  log_with_fields [] entry = entry
  log_with_fields (value ∷ []) entry = entry
  log_with_fields (text key ∷ value ∷ fields) entry =
      log_with_fields fields (with_field key value entry)
  log_with_fields (other key ∷ value ∷ fields) entry = log_with_fields fields entry

  -- The last value that the fields give to a key.
  abbrev pub last_field : String → List (Value V) → Option (Value V)
  last_field asked [] = none
  last_field asked (value ∷ []) = none
  last_field asked (text key ∷ value ∷ fields) = elim (last_field asked fields) [
    | some later ↦ some later
    | none ↦ if key == asked then some value else none
  ]
  last_field asked (other key ∷ value ∷ fields) = last_field asked fields

  -- An entry has under a key the last value that the fields give to it, or what it had.
  pub log_with_fields-reads :
      (asked : String) (fields : List (Value V)) (entry : Entry V)
      → lookup asked (log_with_fields fields entry)
        ≡ elim (last_field asked fields) [ none ↦ lookup asked entry | some value ↦ some value ]
  unfolding log_with_fields with_field
  log_with_fields-reads asked [] entry = refl
  log_with_fields-reads asked (value ∷ []) entry = refl
  log_with_fields-reads asked (text key ∷ value ∷ fields) entry =
      let below = log_with_fields-reads asked fields (insert key value entry) in
      below ∙ elim (Option-cases (last_field asked fields)) [
        | inl absent ↦ rw (absent, lookup-insert key asked value entry) (ground arith)
        | inr (later, there) ↦ rw there refl
      ]
  log_with_fields-reads asked (other key ∷ value ∷ fields) entry =
      log_with_fields-reads asked fields entry

-- The level of a new logger, from LOG_LEVEL and logrus's parsing of a level.
unfoldable pub level_of : {Level : Type 0} → (String → Decoded Level) → Level → String → Level
level_of parse_level info_level variable =
    elim (parse_level (if variable == "" then "info" else variable)) [
      | ok level ↦ level
      | err _ ↦ info_level
    ]
