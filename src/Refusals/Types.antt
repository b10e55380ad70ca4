-- ===== src/Refusals/Types.antt =====
-- src/kb/type_refusals.py: the refusals of a type as it is written.
use shopsystem_kb.Base.{String}
use shopsystem_kb.Requests.{Fault}

unfoldable pub no_such_shape : String → String → Fault
no_such_shape type_id place = record { artifact = type_id; place = place; rule = "shape" }

unfoldable pub built_on_itself : String → String → Fault
built_on_itself type_id place = record { artifact = type_id; place = place; rule = "built-on" }

unfoldable pub no_targets : String → String → Fault
no_targets type_id place = record { artifact = type_id; place = place; rule = "targets" }

unfoldable pub misplaced_link : String → String → Fault
misplaced_link type_id place = record { artifact = type_id; place = place; rule = "ref" }

unfoldable pub misplaced : String → String → Fault
misplaced type_id place = record { artifact = type_id; place = place; rule = "placement" }

unfoldable pub incomplete_link : String → String → Fault
incomplete_link type_id place = record { artifact = type_id; place = place; rule = "ref" }

unfoldable pub unknown_removal : String → String → Fault
unknown_removal type_id place = record { artifact = type_id; place = place; rule = "ref" }

unfoldable pub unknown_reach : String → String → Fault
unknown_reach type_id place = record { artifact = type_id; place = place; rule = "ref" }
