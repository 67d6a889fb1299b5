-- ===== src/Keys/Tests.antt =====
-- Runs of mapListKeyToState of src/classes/scripts/helpers.ts.
use elephantmq.Base.{refl, ◌≡◌}
use elephantmq.Keys.{
  starts_with, qualified_name, to_key, map_list_key_to_state, name_of, waiting_children, includes,
  codes, failed, paused, wait, delayed, prioritized, completed, active,
}
use elephantmq.Keys.States.{IsClear, map_list_key_to_state-to_key}

clear : IsClear (qualified_name (codes "emq") (codes "mail"))
unfolding includes starts_with
clear wait n = absurd (n refl)
clear paused n = refl
clear delayed n = refl
clear prioritized n = refl
clear completed n = refl
clear failed n = refl
clear waiting_children n = refl
clear active n = refl

map_list_key_to_state-to_key_example :
    map_list_key_to_state (to_key (codes "emq") (codes "mail") (name_of failed)) ≡ failed
map_list_key_to_state-to_key_example =
    map_list_key_to_state-to_key (codes "emq") (codes "mail") failed clear
