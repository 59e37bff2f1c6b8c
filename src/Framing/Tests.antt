-- ===== src/Framing/Tests.antt =====
-- crates/core/src/framing.rs on concrete messages, those of its own tests among them.
use syslog_dtls_agent.Prelude.{◌≡◌, refl, ◌↔◌, Bool, true, false, some, ◌++◌, Bytes, codes}
use syslog_dtls_agent.Framing.Text.{
  position, is_utf8, parse_u16, parse_digits, get_from, get_range, ends_with_byte,
}
use syslog_dtls_agent.Framing.Frame.{frame, decimal}
use syslog_dtls_agent.Framing.RoundTrip.{read_frame, read_frame-frame}
use syslog_dtls_agent.Framing.Header.{
  valid_pri, fields, short_fraction, valid_timestamp, valid_field, valid_fields,
}
use syslog_dtls_agent.Framing.Data.{
  sd_name, value_end, sd_value, sd_param, sd_params, contains_id, name_end, sd_elements,
}
use syslog_dtls_agent.Framing.Message.{valid_tail, valid_body, valid_header, valid_message}
use syslog_dtls_agent.Framing.Grammar.{IsMessage}
use syslog_dtls_agent.Framing.Timestamp.{IsTimestamp}
use syslog_dtls_agent.Framing.Accepts.{valid_message-eq-true}

abbrev any_time : Bytes → Bool
any_time ts = true

abbrev with_data : Bytes
with_data = codes "<165>1 2024-01-01T00:00:00.123456Z host app 12 id [a x=\"1\\\"\"][b] hello"

frame_example : frame (codes "hello") ≡ codes "5 hello"
unfolding frame decimal
frame_example = refl

accepts :
    (valid_message any_time (codes "<34>1 - - - - - -") ≡ true)
    × (valid_message any_time with_data ≡ true)
    × (valid_message any_time (codes "<034>1 - - - - - -") ≡ false)
    × (valid_message any_time (codes "<192>1 - - - - - -") ≡ false)
    × (valid_message any_time (codes "<34>1 - - - - - [a][a]") ≡ false)
unfolding valid_message position valid_pri is_utf8 parse_u16 parse_digits fields valid_header
    valid_timestamp short_fraction get_from get_range ends_with_byte valid_fields valid_field
    valid_body valid_tail sd_elements sd_params sd_param sd_value value_end sd_name contains_id
    name_end
accepts = (refl, refl, refl, refl, refl)

read_frame-frame_example :
    read_frame (frame (codes "hello") ++ frame (codes "you"))
    ≡ some (codes "hello", frame (codes "you"))
read_frame-frame_example = read_frame-frame (codes "hello") (frame (codes "you"))

valid_message-eq-true_example :
    (valid_message any_time with_data ≡ true) ↔ IsMessage (IsTimestamp any_time) with_data
valid_message-eq-true_example = valid_message-eq-true any_time with_data
