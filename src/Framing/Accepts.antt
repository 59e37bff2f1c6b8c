-- ===== src/Framing/Accepts.antt =====
-- What `valid_message` of crates/core/src/framing.rs accepts, both ways.
use syslog_dtls_agent.Prelude.{
  ℕ, suc, ◌+◌, ◌≡◌, refl, sym, ap, ap₂, subst, ◌∙◌, ◌↔◌, inl, inr, Bool, true, some, List, [], ◌∷◌,
  ◌++◌, ◌==◌, length, take, drop, take-append, drop-append_cons, All, Bytes, codes, bytes_eq→eq,
  Option-cases, arith,
}
use syslog_dtls_agent.Framing.Text.{position, slice, starts_with_byte}
use syslog_dtls_agent.Framing.Frame.{decimal}
use syslog_dtls_agent.Framing.RoundTrip.{digits-decimal}
use syslog_dtls_agent.Framing.Header.{valid_pri, fields, valid_timestamp, valid_field, valid_fields}
use syslog_dtls_agent.Framing.Message.{valid_body, valid_header, valid_message}
use syslog_dtls_agent.Framing.Grammar.{spaced, IsMessage}
use syslog_dtls_agent.Framing.Scan.{position-IsSplit, position-append}
use syslog_dtls_agent.Framing.Body.{valid_body-IsBody, IsBody-valid_body}
use syslog_dtls_agent.Framing.Timestamp.{IsTimestamp, valid_timestamp-IsTimestamp}
use syslog_dtls_agent.Framing.Priority.{valid_pri-decimal, decimal-valid_pri}
use syslog_dtls_agent.Framing.Language.{
  IsUnspaced, fields-spaced, fields-IsFields, valid_field-IsField, unspaced_field, unspaced_bytes,
  digits_end,
}

-- The text between `<` and `>`.
pri_split :
    (m : Bytes) (found : ℕ) (before after : Bytes)
    → starts_with_byte b'<' m ≡ true
    → m ≡ before ++ found ∷ after
    → (found == b'>') ≡ true
    → (pri : Bytes) × (m ≡ b'<' ∷ (pri ++ b'>' ∷ after)) × (length before ≡ suc (length pri))
pri_split m found [] after h text hit =
    let start : starts_with_byte b'<' m ≡ (found == b'<') = ap (starts_with_byte b'<') text in
    absurd (ground (arith, start))
pri_split m found (b ∷ pri) after h text hit =
    let start : starts_with_byte b'<' m ≡ (b == b'<') = ap (starts_with_byte b'<') text in
    let b_is : b ≡ b'<' = ground (arith, start) in
    let found_is : found ≡ b'>' = ground (arith, hit) in
    (pri, text ∙ ap₂ (λ x y. x ∷ (pri ++ y ∷ after)) b_is found_is, refl)

slice_pri : (pri after : Bytes) → slice 1 (suc (length pri)) (b'<' ∷ (pri ++ b'>' ∷ after)) ≡ pri
slice_pri pri after =
    ap (λ n. take n (pri ++ b'>' ∷ after)) {y = length pri} (omega arith)
    ∙ take-append pri (b'>' ∷ after)

after_pri : (pri after : Bytes) → drop (suc (length pri) + 1) (b'<' ∷ (pri ++ b'>' ∷ after)) ≡ after
after_pri pri after =
    ap (λ n. drop n (b'<' ∷ (pri ++ b'>' ∷ after))) {y = suc (length pri + 1)} (omega arith)
    ∙ drop-append_cons pri after b'>'

-- The shape that the checks on the fields leave.
record IsHeader (rfc3339 : Bytes → Bool) (fs : List Bytes) : Type 0 where
  pub timestamp : Bytes
  pub hostname : Bytes
  pub app_name : Bytes
  pub procid : Bytes
  pub msgid : Bytes
  pub all_fields : fs ≡ (b'1' ∷ []) ∷ timestamp ∷ hostname ∷ app_name ∷ procid ∷ msgid ∷ []
  pub time : valid_timestamp rfc3339 timestamp ≡ true
  pub hostname_valid : valid_field hostname 255 ≡ true
  pub app_name_valid : valid_field app_name 48 ≡ true
  pub procid_valid : valid_field procid 128 ≡ true
  pub msgid_valid : valid_field msgid 32 ≡ true

valid_header-IsHeader :
    (rfc3339 : Bytes → Bool) (fs : List Bytes)
    → length fs ≡ 6
    → valid_header rfc3339 fs ≡ true
    → IsHeader rfc3339 fs
unfolding valid_header valid_fields
valid_header-IsHeader r [] n h = absurd (omega (arith, n))
valid_header-IsHeader r (a ∷ []) n h = absurd (omega (arith, n))
valid_header-IsHeader r (a ∷ b ∷ []) n h = absurd (omega (arith, n))
valid_header-IsHeader r (a ∷ b ∷ c ∷ []) n h = absurd (omega (arith, n))
valid_header-IsHeader r (a ∷ b ∷ c ∷ d ∷ []) n h = absurd (omega (arith, n))
valid_header-IsHeader r (a ∷ b ∷ c ∷ d ∷ e ∷ []) n h = absurd (omega (arith, n))
valid_header-IsHeader r (a ∷ b ∷ c ∷ d ∷ e ∷ f ∷ g ∷ fs) n h = absurd (omega (arith, n))
valid_header-IsHeader r (a ∷ b ∷ c ∷ d ∷ e ∷ f ∷ []) n h = record {
  timestamp = b;
  hostname = c;
  app_name = d;
  procid = e;
  msgid = f;
  all_fields = ap (λ v. v ∷ b ∷ c ∷ d ∷ e ∷ f ∷ []) (bytes_eq→eq a (codes "1") (ground arith));
  time = ground arith;
  hostname_valid = ground arith;
  app_name_valid = ground arith;
  procid_valid = ground arith;
  msgid_valid = ground arith;
}

message_parts :
    (rfc3339 : Bytes → Bool) (m : Bytes)
    → valid_message rfc3339 m ≡ true
    → (end : ℕ) × (fs : List Bytes) × (rest : Bytes) × (starts_with_byte b'<' m ≡ true)
      × (position (λ b. b == b'>') m ≡ some end)
      × (valid_pri (slice 1 end m) ≡ true)
      × (fields 6 (drop (end + 1) m) ≡ some (fs, rest))
      × (valid_header rfc3339 fs ≡ true)
      × (valid_body rest ≡ true)
unfolding valid_message
message_parts rfc3339 m h = elim (Option-cases (position (λ b. b == b'>') m)) [
  | inl e ↦ absurd (ground arith)
  | inr (end, e) ↦ elim (Option-cases (fields 6 (drop (end + 1) m))) [
    | inl f ↦ absurd (ground arith)
    | inr ((fs, rest), f) ↦
        (end, fs, rest, ground arith, e, ground arith, f, ground arith, ground arith)
  ]
]

IsMessage-valid_message :
    (rfc3339 : Bytes → Bool) (m : Bytes)
    → valid_message rfc3339 m ≡ true
    → IsMessage (λ t. valid_timestamp rfc3339 t ≡ true) m
IsMessage-valid_message rfc3339 m h =
    let (end, fs, rest, start, e, pri_ok, f, header_ok, body_ok) = message_parts rfc3339 m h in
    let q = position-IsSplit (λ b. b == b'>') m end e in
    let (pri, text, size) = pri_split m q.found q.before q.after start q.text q.hit in
    let end_is : end ≡ suc (length pri) = sym q.long ∙ size in
    let taken : slice 1 end m ≡ pri =
      ap₂ (λ n t. slice 1 n t) end_is text ∙ slice_pri pri q.after in
    let left : drop (end + 1) m ≡ q.after =
      ap₂ (λ n t. drop (n + 1) t) end_is text ∙ after_pri pri q.after in
    let (n, small, numeral) = decimal-valid_pri pri (rw (← taken) pri_ok) in
    let parts = fields-IsFields 6 q.after fs rest (ap (fields 6) (sym left) ∙ f) in
    let header = valid_header-IsHeader rfc3339 fs parts.count header_ok in
    let unspaced = subst (All IsUnspaced) header.all_fields parts.unspaced in
    record {
      priority = n;
      timestamp = header.timestamp;
      hostname = header.hostname;
      app_name = header.app_name;
      procid = header.procid;
      msgid = header.msgid;
      body = rest;
      text =
          text
          ∙ ap₂ (λ p t. b'<' ∷ (p ++ b'>' ∷ t)) numeral
              (parts.shape ∙ ap (λ l. spaced l rest) header.all_fields);
      priority_bound = small;
      time = header.time;
      unspaced = (unspaced_bytes header.timestamp).0 unspaced.1.0;
      hostname_field = (valid_field-IsField 255 header.hostname).0 header.hostname_valid;
      app_name_field = (valid_field-IsField 48 header.app_name).0 header.app_name_valid;
      procid_field = (valid_field-IsField 128 header.procid).0 header.procid_valid;
      msgid_field = (valid_field-IsField 32 header.msgid).0 header.msgid_valid;
      structured = IsBody-valid_body rest body_ok;
    }

-- The scan for `>` stops behind the priority.
position_pri :
    (n : ℕ) (after : Bytes)
    → position (λ b. b == b'>') (b'<' ∷ (decimal n ++ b'>' ∷ after))
      ≡ some (suc (length (decimal n)))
position_pri n after =
    position-append (λ b. b == b'>') (b'<' ∷ decimal n) after b'>'
      (refl, digits_end (decimal n) (digits-decimal n)) refl

header_of :
    (rfc3339 : Bytes → Bool) (m : Bytes)
    → (q : IsMessage (λ t. valid_timestamp rfc3339 t ≡ true) m)
    → valid_header rfc3339
        ((b'1' ∷ []) ∷ q.timestamp ∷ q.hostname ∷ q.app_name ∷ q.procid ∷ q.msgid ∷ [])
      ≡ true
unfolding valid_header valid_fields
header_of rfc3339 m q = ground (
  arith,
  q.time,
  (valid_field-IsField 255 q.hostname).1 q.hostname_field,
  (valid_field-IsField 48 q.app_name).1 q.app_name_field,
  (valid_field-IsField 128 q.procid).1 q.procid_field,
  (valid_field-IsField 32 q.msgid).1 q.msgid_field,
)

pub valid_message-IsMessage :
    (rfc3339 : Bytes → Bool) (m : Bytes)
    → IsMessage (λ t. valid_timestamp rfc3339 t ≡ true) m
    → valid_message rfc3339 m ≡ true
unfolding valid_message
valid_message-IsMessage rfc3339 m q =
    let pri = decimal q.priority in
    let fs = (b'1' ∷ []) ∷ q.timestamp ∷ q.hostname ∷ q.app_name ∷ q.procid ∷ q.msgid ∷ [] in
    let after = spaced fs q.body in
    let unspaced : All IsUnspaced fs = (
      (refl, tt),
      (
        (unspaced_bytes q.timestamp).1 q.unspaced,
        (
          unspaced_field q.hostname q.hostname_field.printable,
          (
            unspaced_field q.app_name q.app_name_field.printable,
            (
              unspaced_field q.procid q.procid_field.printable,
              (unspaced_field q.msgid q.msgid_field.printable, tt),
            ),
          ),
        ),
      ),
    ) in
    let accepted : valid_message rfc3339 (b'<' ∷ (pri ++ b'>' ∷ after)) ≡ true =
      rw
        (
          valid_message,
          position_pri q.priority after,
          slice_pri pri after,
          after_pri pri after,
          valid_pri-decimal q.priority q.priority_bound,
          fields-spaced fs q.body unspaced,
          header_of rfc3339 m q,
          valid_body-IsBody q.body q.structured,
        )
        refl in
    ap (valid_message rfc3339) q.text ∙ accepted

-- A message with another account of its timestamp.
retime :
    {P Q : Bytes → Type 0} {m : Bytes} → ((t : Bytes) → P t → Q t) → IsMessage P m → IsMessage Q m
retime f q = record {
  priority = q.priority;
  timestamp = q.timestamp;
  hostname = q.hostname;
  app_name = q.app_name;
  procid = q.procid;
  msgid = q.msgid;
  body = q.body;
  text = q.text;
  priority_bound = q.priority_bound;
  time = f q.timestamp q.time;
  unspaced = q.unspaced;
  hostname_field = q.hostname_field;
  app_name_field = q.app_name_field;
  procid_field = q.procid_field;
  msgid_field = q.msgid_field;
  structured = q.structured;
}

-- A message is accepted exactly when it is a SYSLOG-MSG of RFC 5424 as `IsMessage` states it, with a
-- timestamp that is `-`, or is UTF-8, has a `T` and an offset, parses, has six fraction digits at most
-- and no leap second. `rfc3339` is any parser's test of a timestamp.
pub valid_message-eq-true :
    (rfc3339 : Bytes → Bool) (m : Bytes)
    → (valid_message rfc3339 m ≡ true) ↔ IsMessage (IsTimestamp rfc3339) m
valid_message-eq-true rfc3339 m = (
  λ h.
      retime (λ t. (valid_timestamp-IsTimestamp rfc3339 t).0) (IsMessage-valid_message rfc3339 m h),
  λ q.
      valid_message-IsMessage rfc3339 m (retime (λ t. (valid_timestamp-IsTimestamp rfc3339 t).1) q),
)
