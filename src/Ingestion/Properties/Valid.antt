-- ===== src/Ingestion/Properties/Valid.antt =====
-- The check finds no error exactly when every property has a definition that it matches.
use mathlib.Core.Bool.{true≢false}
use token_pilot.Base.{
  ℕ, ◌≡◌, ◌↔◌, refl, ap, ◌∙◌, true, false, Option, none, some, List, [], ◌∷◌, ◌++◌, any, All,
  Bool-cases, Option-cases, inl, inr,
}
use token_pilot.Ingestion.Properties.{
  PropertyScope, event, user, JsonValue, PropertyDefinition, Floats, PropertyError, value_matches,
  is_for, get_definition, entry_error, or_next, validate_scope, validate_event_properties,
}

module _ {Number : Type 0} (floats : Floats Number) where
  -- The last definition for the scope and the key.
  pub record Latest (scope : PropertyScope) (key : List ℕ)
      (definitions : List (PropertyDefinition Number)) (d : PropertyDefinition Number)
      : Type 0 where
    pub before : List (PropertyDefinition Number)
    pub after : List (PropertyDefinition Number)
    pub place : definitions ≡ before ++ (d ∷ after)
    pub fits : is_for floats scope key d ≡ true
    pub no_later : any (is_for floats scope key) after ≡ false

  module _ (scope : PropertyScope) (key : List ℕ) where
    get-none :
        (ds : List (PropertyDefinition Number))
        → get_definition floats scope key ds ≡ none
        → any (is_for floats scope key) ds ≡ false
    unfolding get_definition
    get-none [] h = refl
    get-none (d ∷ ds) h = elim (Option-cases (get_definition floats scope key ds)) [
      | inr (later, e) ↦ let h' : some later ≡ none = rw e at h in cc
      | inl e ↦ elim (Bool-cases (is_for floats scope key d)) [
        | inl hit ↦ let h' : some d ≡ none = rw (e, hit) at h in cc
        | inr miss ↦ rw miss (get-none ds e)
      ]
    ]

    none-get :
        (ds : List (PropertyDefinition Number))
        → any (is_for floats scope key) ds ≡ false
        → get_definition floats scope key ds ≡ none
    unfolding get_definition
    none-get [] h = refl
    none-get (d ∷ ds) h = elim (Bool-cases (is_for floats scope key d)) [
      | inl hit ↦ let h' : true ≡ false = rw hit at h in absurd (true≢false h')
      | inr miss ↦ rw (none-get ds (rw miss at h)) (rw miss refl)
    ]

    get-Latest :
        (ds : List (PropertyDefinition Number)) (d : PropertyDefinition Number)
        → get_definition floats scope key ds ≡ some d
        → Latest scope key ds d
    unfolding get_definition
    get-Latest [] d h = cc
    get-Latest (d' ∷ ds) d h = elim (Option-cases (get_definition floats scope key ds)) [
      | inr (later, e) ↦
          let h' : some later ≡ some d = rw e at h in
          let same : later ≡ d = cc in
          let l = get-Latest ds d (e ∙ ap some same) in
          record {
            before = d' ∷ l.before;
            after = l.after;
            place = ap (λ rest. d' ∷ rest) l.place;
            fits = l.fits;
            no_later = l.no_later;
          }
      | inl e ↦ elim (Bool-cases (is_for floats scope key d')) [
        | inr miss ↦ let h' : none ≡ some d = rw (e, miss) at h in cc
        | inl hit ↦
            let h' : some d' ≡ some d = rw (e, hit) at h in
            let same : d' ≡ d = cc in
            record {
              before = [];
              after = ds;
              place = ap (λ first. first ∷ ds) same;
              fits = rw same at hit;
              no_later = get-none ds e;
            }
      ]
    ]

    Latest-get :
        (before after : List (PropertyDefinition Number)) (d : PropertyDefinition Number)
        → is_for floats scope key d ≡ true
        → any (is_for floats scope key) after ≡ false
        → get_definition floats scope key (before ++ (d ∷ after)) ≡ some d
    unfolding get_definition
    Latest-get [] after d fits none_later = rw (none-get after none_later) (rw fits refl)
    Latest-get (x ∷ before) after d fits none_later =
        rw (Latest-get before after d fits none_later) refl

  -- An entry of an object whose last definition its value matches.
  abbrev pub Fits :
      PropertyScope → List (PropertyDefinition Number) → List ℕ × JsonValue Number → Type 0
  Fits scope definitions (key, value) =
      (d : PropertyDefinition Number) × Latest scope key definitions d
      × (value_matches floats d value ≡ true)

  module _ (scope : PropertyScope) (definitions : List (PropertyDefinition Number)) where
    entry-Fits :
        (key : List ℕ) (value : JsonValue Number) (o : Option (PropertyDefinition Number))
        → get_definition floats scope key definitions ≡ o
        → entry_error floats scope key value o ≡ none
        → Fits scope definitions (key, value)
    entry-Fits key value none e h = cc
    entry-Fits key value (some d) e h = elim (Bool-cases (value_matches floats d value)) [
      | inl good ↦ (d, get-Latest scope key definitions d e, good)
      | inr bad ↦
          let h' : some (PropertyError.not_matching scope key d.data_type) ≡ none = rw bad at h in
          cc
    ]

    Fits-entry :
        (key : List ℕ) (value : JsonValue Number)
        → Fits scope definitions (key, value)
        → entry_error floats scope key value (get_definition floats scope key definitions) ≡ none
    Fits-entry key value (d, l, good) =
        rw (l.place, Latest-get scope key l.before l.after d l.fits l.no_later) (rw good refl)

    or_next-none :
        (a b : Option PropertyError) → or_next floats a b ≡ none → (a ≡ none) × (b ≡ none)
    or_next-none none b h = (refl, h)
    or_next-none (some a) b h = cc

    scope-Fits :
        (entries : List (List ℕ × JsonValue Number))
        → validate_scope floats scope entries definitions ≡ none
        → All (Fits scope definitions) entries
    unfolding validate_scope
    scope-Fits [] h = tt
    scope-Fits ((key, value) ∷ entries) h =
        let (here, rest) = or_next-none _ _ h in
        (entry-Fits key value _ refl here, scope-Fits entries rest)

    Fits-scope :
        (entries : List (List ℕ × JsonValue Number))
        → All (Fits scope definitions) entries
        → validate_scope floats scope entries definitions ≡ none
    unfolding validate_scope
    Fits-scope [] h = refl
    Fits-scope ((key, value) ∷ entries) (here, rest) =
        rw (Fits-entry key value here) (Fits-scope entries rest)

  -- The check of an event's properties finds no error exactly when each property of the event and each
  -- one of its user has a definition for its scope and key, and its value matches the last of them.
  pub validate_event_properties-Fits :
      (event_properties user_properties : List (List ℕ × JsonValue Number))
      (definitions : List (PropertyDefinition Number))
      → (validate_event_properties floats event_properties user_properties definitions ≡ none) ↔ (
          All (Fits event definitions) event_properties
          × All (Fits user definitions) user_properties)
  unfolding validate_event_properties
  validate_event_properties-Fits event_properties user_properties definitions = (
    (λ h.
        let (of_event, of_user) = or_next-none event definitions _ _ h in
        (
          scope-Fits event definitions event_properties of_event,
          scope-Fits user definitions user_properties of_user,
        )),
    λ h.
        rw (Fits-scope event definitions event_properties h.0)
          (Fits-scope user definitions user_properties h.1),
  )
