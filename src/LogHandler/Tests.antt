-- ===== src/LogHandler/Tests.antt =====
-- Runs of a handler with an open group.
use bugfree_go_sdk.Base.{[], codes, false, insert, is_empty, none, refl, some, ◌≡◌}
use bugfree_go_sdk.Event.{number}
use bugfree_go_sdk.Samples.{client, moment}
use bugfree_go_sdk.LogHandler.Records.{LogRecord, handle}
use bugfree_go_sdk.LogHandler.{
  Attrs, LogHandler, attr, fields, group, level_of_error, level_of_info, no_attrs, other_value,
  single, with_attrs,
}
use bugfree_go_sdk.LogHandler.Fields.{fields_keyless}
use bugfree_go_sdk.LogHandler.Accounting.{Handled, handle-Handled}

abbrev handler : LogHandler
handler = record {
  event_level = level_of_error;
  breadcrumb_level = level_of_info;
  wrapped = λ level. false;
  attrs = no_attrs;
  prefix = codes "job";
}

abbrev order_attr : Attrs
order_attr = attr (codes "order") (single (other_value (number 7))) no_attrs

abbrev step_attr : Attrs
step_attr = attr (codes "step") (group order_attr) no_attrs

fields_keyless_example :
    fields (with_attrs handler (attr [] (single (other_value (number 7))) no_attrs)) no_attrs
    ≡ insert (codes "job") (other_value (number 7)) (fields handler no_attrs)
unfolding is_empty
fields_keyless_example = (fields_keyless handler (other_value (number 7)) refl).1

abbrev failed : LogRecord
failed = record {
  level = level_of_error;
  text = codes "charge failed";
  site = none;
  attrs = order_attr;
}

handle-Handled_example :
    Handled
      (λ field. [])
      (moment 5)
      handler
      client
      (some 1)
      failed
      (handle (λ field. []) (moment 5) handler client (some 1) failed)
handle-Handled_example = handle-Handled (λ field. []) (moment 5) handler client (some 1) failed refl
