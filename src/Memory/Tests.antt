-- ===== src/Memory/Tests.antt =====
-- Writes to the project memory, and the records that an agent is given.
use enterprise_ai_agent.Prelude.{◌≡◌, refl, none, some, List, [], ◌∷◌}
use enterprise_ai_agent.Prelude.TextDict.{lookup, insert}
use enterprise_ai_agent.Memory.Stores.{get_value}
use enterprise_ai_agent.Memory.Manager.{EnterpriseMemory, write_project, record_software_project}
use enterprise_ai_agent.Memory.Manager.Writes.{Write, Written, write_all, write_all-Written}

abbrev nothing : EnterpriseMemory
nothing = record { conversation = []; project = []; shared = []; knowledge = [] }

abbrev writes : List Write
writes =
    record { now = 1; project_id = "p"; key = "tasks"; value = "a"; agent_name = "manager" }
    ∷ record { now = 2; project_id = "q"; key = "tasks"; value = "b"; agent_name = "manager" }
    ∷ record { now = 3; project_id = "p"; key = "tasks"; value = "c"; agent_name = "developer" }
    ∷ []

write_all-Written_example : Written "p" "tasks" writes nothing (write_all writes nothing)
write_all-Written_example = write_all-Written "p" "tasks" writes nothing

last_wins : get_value "p" "tasks" (write_all writes nothing).project ≡ some "c"
unfolding get_value write_all write_project lookup insert
last_wins = refl

no_tasks :
    get_value "p" "tasks" (record_software_project (λ n. n) "p" "a" "r" "t" "" nothing).project
    ≡ none
unfolding get_value record_software_project lookup insert
no_tasks = refl
