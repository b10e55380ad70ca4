-- ===== src/Refusals.antt =====
-- src/kb/refusals.py: the refusals that the domain makes of what a store holds, each what it is said
-- of and its rule. A message is not modelled, nor what only a message says.
pub mod Types
pub mod Files
use shopsystem_kb.Base.{ℕ, String, ◌<>◌, ◌==◌, string_eq, if◌then◌else◌}
use shopsystem_kb.Base.Decimal.{decimal}
use shopsystem_kb.Names
use shopsystem_kb.Content.Items.{Misnamed}
use shopsystem_kb.Requests.{Fault}
use shopsystem_kb.Requests.Values.{Locator}

-- The place of the name of an item, by its collection and where it stands there.
unfoldable pub item_place : String → ℕ → String
unfolding decimal
item_place collection index = collection <> ("/" <> (decimal index <> "/id"))

unfoldable pub not_found : String → Fault
not_found artifact_id = record { artifact = artifact_id; place = ""; rule = "not-found" }

unfoldable pub no_type : Fault
no_type = record { artifact = ""; place = ""; rule = "kind" }

unfoldable pub no_version : Fault
no_version = record { artifact = ""; place = ""; rule = "version" }

unfoldable pub not_later : String → Fault
not_later artifact_id = record { artifact = artifact_id; place = ""; rule = "version" }

unfoldable pub not_under : String → Fault
not_under artifact_id = record { artifact = artifact_id; place = ""; rule = "identity" }

unfoldable pub belongs : String → Fault
belongs type_id = record { artifact = type_id; place = ""; rule = "identity" }

unfoldable pub already_held : String → Fault
already_held artifact_id = record { artifact = artifact_id; place = ""; rule = "identity" }

unfoldable pub not_a_collection : Locator → Fault
unfolding Names.placed
not_a_collection locator = record {
  artifact = locator.id;
  place = Names.placed locator.place;
  rule = "collection";
}

unfoldable pub nothing_at : Locator → Fault
unfolding Names.placed
nothing_at locator = record {
  artifact = locator.id;
  place = Names.placed locator.place;
  rule = "not-found";
}

unfoldable pub settled_place : Locator → Fault
unfolding Names.placed
settled_place locator = record {
  artifact = locator.id;
  place = Names.placed locator.place;
  rule = "identity";
}

unfoldable pub moved : String → Fault
moved artifact_id = record { artifact = artifact_id; place = ""; rule = "revision" }

unfoldable pub whole_only : Locator → Fault
unfolding Names.placed
whole_only locator = record {
  artifact = locator.id;
  place = Names.placed locator.place;
  rule = "locator";
}

unfoldable pub still_linked : String → String → Fault
still_linked other place = record { artifact = other; place = place; rule = "on_delete" }

unfoldable pub unlanded : String → String → Fault
unlanded artifact place = record { artifact = artifact; place = place; rule = "ref" }

unfoldable pub misnamed : String → Misnamed → Fault
unfolding item_place
misnamed artifact_id found = record {
  artifact = artifact_id;
  place = item_place found.collection found.index;
  rule = "item-name";
}

unfoldable pub misnamed_part : String → Misnamed → Fault
unfolding item_place
misnamed_part artifact_id found = record {
  artifact = artifact_id;
  place = item_place found.collection found.index;
  rule = "item-name";
}

unfoldable pub unwritable : String → String → Fault
unwritable artifact_id place = record { artifact = artifact_id; place = place; rule = "content" }

unfoldable pub no_section : String → String → Fault
no_section artifact_id part = record {
  artifact = artifact_id;
  place = (if part == "" then "sections" else part);
  rule = "not-found";
}

unfoldable pub clock_failed : Fault
clock_failed = record { artifact = ""; place = ""; rule = "clock" }

unfoldable pub unreadable : Fault
unreadable = record { artifact = ""; place = ""; rule = "unreadable" }

unfoldable pub earlier_kb : Fault
earlier_kb = record { artifact = ""; place = ""; rule = "unreadable" }

unfoldable pub later_kb : Fault
later_kb = record { artifact = ""; place = ""; rule = "unreadable" }

unfoldable pub busy : Fault
busy = record { artifact = ""; place = ""; rule = "busy" }

unfoldable pub served : Fault
served = record { artifact = ""; place = ""; rule = "served" }

unfoldable pub clock_with_a_server : Fault
clock_with_a_server = record { artifact = ""; place = ""; rule = "clock" }

unfoldable pub connection : Fault
connection = record { artifact = ""; place = ""; rule = "connection" }

unfoldable pub unreachable : Fault
unreachable = record { artifact = ""; place = ""; rule = "unreachable" }

unfoldable pub escaped : Fault
escaped = record { artifact = ""; place = ""; rule = "store" }
