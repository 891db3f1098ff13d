-- ===== src/Ingestion/Properties.antt =====
-- The check of an event's properties: apps/api/src/ingestion/property-validation.ts.
pub mod Valid
mod Tests
use token_pilot.Base.{
  ℕ, Bool, true, false, ◌&&◌, Option, none, some, List, [], ◌∷◌, length, all, any, includes,
  same_list, if◌then◌else◌,
}

pub data PropertyScope : Type 0 where
  event : PropertyScope
  user : PropertyScope

pub data PropertyDataType : Type 0 where
  text_type : PropertyDataType
  number_type : PropertyDataType
  boolean_type : PropertyDataType
  datetime_type : PropertyDataType
  enum_type : PropertyDataType
  text_list_type : PropertyDataType

-- A member of an array: a text, or something else.
pub data Member : Type 0 where
  text_member : List ℕ → Member
  other_member : Member

-- The values of JSON. A text is the list of its code units.
pub data JsonValue (Number : Type 0) : Type 0 where
  text : List ℕ → JsonValue Number
  number : Number → JsonValue Number
  boolean : Bool → JsonValue Number
  array : List Member → JsonValue Number
  other : JsonValue Number

pub record PropertyConstraints (Number : Type 0) : Type 0 where
  pub max_length : Option Number
  pub min : Option Number
  pub max : Option Number
  pub max_items : Option Number

-- `allowed_values` is `none` where the column has no array; constraints that are no object are empty.
pub record PropertyDefinition (Number : Type 0) : Type 0 where
  pub key : List ℕ
  pub scope : PropertyScope
  pub data_type : PropertyDataType
  pub allowed_values : Option (List Member)
  pub constraints : PropertyConstraints Number

-- Floating-point numbers, and `Date.parse`.
pub record Floats (Number : Type 0) : Type 0 where
  pub of_length : ℕ → Number
  pub leb : Number → Number → Bool
  pub is_finite : Number → Bool
  pub parse_date : List ℕ → Number

pub data PropertyError : Type 0 where
  not_defined : PropertyScope → List ℕ → PropertyError
  not_matching : PropertyScope → List ℕ → PropertyDataType → PropertyError

abbrev pub is_text : List ℕ → Member → Bool
is_text units (text_member member) = same_list units member
is_text units other_member = false

abbrev pub allows : Option (List Member) → List ℕ → Bool
allows none units = false
allows (some members) units = any (is_text units) members

abbrev pub same_scope : PropertyScope → PropertyScope → Bool
same_scope event event = true
same_scope user user = true
same_scope event user = false
same_scope user event = false

module _ {Number : Type 0} (floats : Floats Number) where
  -- `limit === undefined || value <= limit`, and the same from below.
  abbrev pub at_most : Number → Option Number → Bool
  at_most value none = true
  at_most value (some limit) = floats.leb value limit

  abbrev pub at_least : Number → Option Number → Bool
  at_least value none = true
  at_least value (some limit) = floats.leb limit value

  abbrev pub short_text : Option Number → Member → Bool
  short_text limit (text_member units) = at_most (floats.of_length (length units)) limit
  short_text limit other_member = false

  -- The code unit of `T` is 84.
  unfoldable pub value_of_type :
      PropertyDefinition Number
      → PropertyConstraints Number
      → PropertyDataType
      → JsonValue Number
      → Bool
  value_of_type definition limit text_type (text units) =
      at_most (floats.of_length (length units)) limit.max_length
  value_of_type definition limit number_type (number value) =
      floats.is_finite value && (at_least value limit.min && at_most value limit.max)
  value_of_type definition limit boolean_type (boolean value) = true
  value_of_type definition limit datetime_type (text units) =
      includes 84 units && floats.is_finite (floats.parse_date units)
  value_of_type definition limit enum_type (text units) = allows definition.allowed_values units
  value_of_type definition limit text_list_type (array members) =
      at_most (floats.of_length (length members)) limit.max_items
      && all (short_text limit.max_length) members
  value_of_type definition limit _ _ = false

  unfoldable pub value_matches : PropertyDefinition Number → JsonValue Number → Bool
  value_matches definition value =
      value_of_type definition definition.constraints definition.data_type value

  abbrev pub is_for : PropertyScope → List ℕ → PropertyDefinition Number → Bool
  is_for scope key definition = same_scope definition.scope scope && same_list definition.key key

  abbrev pub or_earlier :
      Option (PropertyDefinition Number)
      → Option (PropertyDefinition Number)
      → Option (PropertyDefinition Number)
  or_earlier (some definition) earlier = some definition
  or_earlier none earlier = earlier

  -- `get` of the map by scope and key, in which a later definition replaces an earlier one.
  unfoldable pub get_definition :
      PropertyScope → List ℕ → List (PropertyDefinition Number) → Option (PropertyDefinition Number)
  get_definition scope key [] = none
  get_definition scope key (definition ∷ definitions) =
      or_earlier (get_definition scope key definitions)
        (if is_for scope key definition then some definition else none)

  abbrev pub entry_error :
      PropertyScope
      → List ℕ
      → JsonValue Number
      → Option (PropertyDefinition Number)
      → Option PropertyError
  entry_error scope key value none = some (not_defined scope key)
  entry_error scope key value (some definition) =
      if value_matches definition value
      then none
      else some (not_matching scope key definition.data_type)

  abbrev pub or_next : Option PropertyError → Option PropertyError → Option PropertyError
  or_next (some error) next = some error
  or_next none next = next

  -- The entries of an object, in the order in which the loop reads them.
  unfoldable pub validate_scope :
      PropertyScope
      → List (List ℕ × JsonValue Number)
      → List (PropertyDefinition Number)
      → Option PropertyError
  validate_scope scope [] definitions = none
  validate_scope scope ((key, value) ∷ entries) definitions =
      or_next (entry_error scope key value (get_definition scope key definitions))
        (validate_scope scope entries definitions)

  -- The properties of the event and of the user; those that are absent are empty.
  unfoldable pub validate_event_properties :
      List (List ℕ × JsonValue Number)
      → List (List ℕ × JsonValue Number)
      → List (PropertyDefinition Number)
      → Option PropertyError
  validate_event_properties event_properties user_properties definitions =
      or_next (validate_scope event event_properties definitions)
        (validate_scope user user_properties definitions)
