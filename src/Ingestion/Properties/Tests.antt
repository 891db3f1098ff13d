-- ===== src/Ingestion/Properties/Tests.antt =====
-- Two definitions of one property of an event, of which the later one counts.
use token_pilot.Base.{ℕ, ◌≡◌, ◌↔◌, refl, true, Option, none, some, List, [], ◌∷◌, leb, All}
use token_pilot.Ingestion.Properties.{
  event, user, PropertyDataType, JsonValue, PropertyDefinition, Floats, PropertyError,
  value_of_type, value_matches, get_definition, validate_scope, validate_event_properties,
}
use token_pilot.Ingestion.Properties.Valid.{Fits, validate_event_properties-Fits}

abbrev floats : Floats ℕ
floats = record { of_length = λ n. n; leb = leb; is_finite = λ n. true; parse_date = λ units. 0 }

abbrev defined : PropertyDataType → Option ℕ → PropertyDefinition ℕ
defined data_type limit = record {
  key = 107 ∷ [];
  scope = event;
  data_type = data_type;
  allowed_values = none;
  constraints = record { max_length = none; min = none; max = limit; max_items = none };
}

abbrev definitions : List (PropertyDefinition ℕ)
definitions =
    defined PropertyDataType.text_type none ∷ defined PropertyDataType.number_type (some 9) ∷ []

abbrev entries : ℕ → List (List ℕ × JsonValue ℕ)
entries n = (107 ∷ [], JsonValue.number n) ∷ []

too_large :
    validate_event_properties floats (entries 10) [] definitions
    ≡ some (PropertyError.not_matching event (107 ∷ []) PropertyDataType.number_type)
unfolding validate_event_properties validate_scope get_definition value_matches value_of_type
too_large = refl

validate_event_properties-Fits_example :
    (validate_event_properties floats (entries 9) [] definitions ≡ none)
    ↔ (All (Fits floats event definitions) (entries 9) × All (Fits floats user definitions) [])
validate_event_properties-Fits_example =
    validate_event_properties-Fits floats (entries 9) [] definitions
