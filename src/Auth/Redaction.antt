-- ===== src/Auth/Redaction.antt =====
-- The diagnostics of crates/cli/src/auth.rs show no sensitive field.
use syslog_dtls_agent.Prelude.{◌≡◌, refl, ap, ap₂, sym, Bool, true, false, if◌then◌else◌, some}
use syslog_dtls_agent.Auth.Json.{
  Json, null, bool, number, text_of, items, object, Items, no_item, item, Fields, no_field, field,
  is_sensitive, redacted, redact, redact_items, redact_fields, diagnostic_claims,
}

-- At every depth, a field with a sensitive name has the placeholder for its value.
mutual
  pub IsRedacted : Json → Type 0
  IsRedacted null = Unit {0}
  IsRedacted (bool b) = Unit {0}
  IsRedacted (number n) = Unit {0}
  IsRedacted (text_of s) = Unit {0}
  IsRedacted (items values) = AreRedacted values
  IsRedacted (object fields) = AreHidden fields

  pub AreRedacted : Items → Type 0
  AreRedacted no_item = Unit {0}
  AreRedacted (item value rest) = IsRedacted value × AreRedacted rest

  pub AreHidden : Fields → Type 0
  AreHidden no_field = Unit {0}
  AreHidden (field k value rest) =
      (is_sensitive k ≡ true → value ≡ redacted)
      × (is_sensitive k ≡ false → IsRedacted value)
      × AreHidden rest

mutual
  unfolding IsRedacted redact

  redact-IsRedacted : (value : Json) → IsRedacted (redact value)
  redact-IsRedacted null = tt
  redact-IsRedacted (bool b) = tt
  redact-IsRedacted (number n) = tt
  redact-IsRedacted (text_of s) = tt
  redact-IsRedacted (items values) = redact_items-AreRedacted values
  redact-IsRedacted (object fields) = redact_fields-AreHidden fields

  redact_items-AreRedacted : (values : Items) → AreRedacted (redact_items values)
  redact_items-AreRedacted no_item = tt
  redact_items-AreRedacted (item value rest) =
      (redact-IsRedacted value, redact_items-AreRedacted rest)

  redact_fields-AreHidden : (fields : Fields) → AreHidden (redact_fields fields)
  redact_fields-AreHidden no_field = tt
  redact_fields-AreHidden (field k value rest) =
      (λ h. rw h refl, λ h. rw h (redact-IsRedacted value), redact_fields-AreHidden rest)

hidden_value :
    (b : Bool) (value inner : Json)
    → (b ≡ true → value ≡ redacted)
    → (b ≡ false → inner ≡ value)
    → (if b then redacted else inner) ≡ value
hidden_value true value inner h g = sym (h refl)
hidden_value false value inner h g = g refl

mutual
  unfolding IsRedacted redact

  IsRedacted-redact : (value : Json) → IsRedacted value → redact value ≡ value
  IsRedacted-redact null h = refl
  IsRedacted-redact (bool b) h = refl
  IsRedacted-redact (number n) h = refl
  IsRedacted-redact (text_of s) h = refl
  IsRedacted-redact (items values) h = ap items (AreRedacted-redact_items values h)
  IsRedacted-redact (object fields) h = ap object (AreHidden-redact_fields fields h)

  AreRedacted-redact_items : (values : Items) → AreRedacted values → redact_items values ≡ values
  AreRedacted-redact_items no_item h = refl
  AreRedacted-redact_items (item value rest) h =
      ap₂ item (IsRedacted-redact value h.0) (AreRedacted-redact_items rest h.1)

  AreHidden-redact_fields : (fields : Fields) → AreHidden fields → redact_fields fields ≡ fields
  AreHidden-redact_fields no_field h = refl
  AreHidden-redact_fields (field k value rest) h =
      ap₂ (field k)
        (hidden_value (is_sensitive k) value (redact value) h.0
          (λ e. IsRedacted-redact value (h.1 e)))
        (AreHidden-redact_fields rest h.2)

-- In what the diagnostics show of the claims, every field at every depth whose name is sensitive has
-- the placeholder for its value; and claims of which that already holds are shown unchanged.
pub diagnostic_claims-IsRedacted :
    (value : Json)
    → IsRedacted (diagnostic_claims (some value))
      × (IsRedacted value → diagnostic_claims (some value) ≡ value)
unfolding diagnostic_claims
diagnostic_claims-IsRedacted value = (redact-IsRedacted value, IsRedacted-redact value)
