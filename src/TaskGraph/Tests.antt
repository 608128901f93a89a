-- ===== src/TaskGraph/Tests.antt =====
-- Small task graphs, what graph.py does on them, and the theorems at these inputs.
use Prim.Native.String.{len}
use youk.Prelude.{
  String, Bool, true, false, none, some, List, [], ◌∷◌, ◌≡◌, ◌≢◌, ◌↔◌, refl, arith, Memᴰ, leb, inr,
}
use youk.TaskGraph.Cycle.{Edge, would_cycle}
use youk.TaskGraph.Cycle.Found.{Cyclic}
use youk.TaskGraph.Cycle.Exact.{would_cycle_iff}
use youk.TaskGraph.Store.{Task, Db, empty_db, fresh_task, find_task}
use youk.TaskGraph.Create.{NewTask}
use youk.TaskGraph.Gates.{mark_done, next_task, is_unblocked, open_tasks}
use youk.TaskGraph.Valid.{IsValid}
use youk.TaskGraph.Reach.{
  Call, create, gate, start, finished, perform_all, perform_all-IsValid, empty_db-IsValid,
}
use youk.TaskGraph.Next.{IsCollation, Answers, next_task-Answers}
use youk.TaskGraph.Progress.{next_task-progress}
use youk.TaskGraph.Effects.{next_task-taken}
use youk.TaskGraph.Accept.{CreateOutcome, create_task_graph_lem}

program : Unit {0}
unfolding perform_all would_cycle next_task is_unblocked open_tasks find_task
program = tt

abbrev loop : List Edge
loop = ("a", "b") ∷ ("b", "c") ∷ ("c", "a") ∷ []

abbrev diamond : List Edge
diamond = ("a", "b") ∷ ("a", "c") ∷ ("b", "d") ∷ ("c", "d") ∷ []

would_cycle-loop : (would_cycle loop ≡ true) × (would_cycle diamond ≡ false)
unfolding program
would_cycle-loop = (refl, refl)

would_cycle_iff_example : (would_cycle loop ≡ true) ↔ Cyclic loop
would_cycle_iff_example = would_cycle_iff loop

abbrev a : NewTask
a = record { id = "a"; label = "first"; project = some "p" }

abbrev b : NewTask
b = record { id = "b"; label = "second"; project = none }

abbrev script : List Call
script =
    create (a ∷ b ∷ []) (("a", "b") ∷ [])
    ∷ gate "a" "unblocked" true none
    ∷ gate "b" "unblocked" true none
    ∷ start "b" "second" "p" "p-1"
    ∷ create [] (("b", "a") ∷ [])
    ∷ finished "a"
    ∷ finished "b"
    ∷ []

abbrev closed : String → String → Task
closed id label = record (fresh_task id label (some "p")) { unblocked = true; done = true }

abbrev finished_db : Db
finished_db = record {
  tasks = closed "a" "first" ∷ closed "b" "second" ∷ [];
  edges = ("a", "b") ∷ [];
}

script_runs : perform_all script empty_db ≡ finished_db
unfolding program
script_runs = refl

perform_all-IsValid_example : IsValid (perform_all script empty_db)
perform_all-IsValid_example = perform_all-IsValid script empty_db empty_db-IsValid

finished_db-IsValid : IsValid finished_db
unfolding program
finished_db-IsValid = perform_all-IsValid script empty_db empty_db-IsValid

-- An order on ids that is total and transitive.
abbrev by_length : String → String → Bool
by_length s t = leb (len s) (len t)

by_length-IsCollation : IsCollation by_length
by_length-IsCollation = record { total = λ s t. ground arith; trans = λ r s t p q. ground arith }

abbrev ready_db : Db
ready_db = record {
  tasks =
      record (fresh_task "a" "first" (some "p")) { unblocked = true }
      ∷ record (fresh_task "b" "second" (some "p")) { unblocked = true }
      ∷ [];
  edges = ("a", "b") ∷ [];
}

next_first :
    next_task by_length (some "p") ready_db
    ≡ some (record (fresh_task "a" "first" (some "p")) { unblocked = true })
unfolding program
next_first = refl

next_task-Answers_example :
    Answers by_length (some "p") ready_db (next_task by_length (some "p") ready_db)
next_task-Answers_example = next_task-Answers by_length by_length-IsCollation (some "p") ready_db

stuck : next_task by_length none finished_db ≡ none
unfolding program
stuck = refl

all_closed : (t : Task) → Memᴰ t finished_db.tasks → t.done ≡ true
all_closed t (Memᴰ.head e) = cc
all_closed t (Memᴰ.tail (Memᴰ.head e)) = cc
all_closed t (Memᴰ.tail (Memᴰ.tail m)) = elim m [ ]

next_task-progress_example : (closed "b" "second").done ≡ true
next_task-progress_example =
    next_task-progress by_length finished_db by_length-IsCollation finished_db-IsValid
      (λ t m undone. cc (all_closed t m)) stuck (closed "b" "second") (Memᴰ.tail (Memᴰ.head refl))

next_after :
    next_task by_length (some "p") (mark_done "a" ready_db)
    ≡ some (record (fresh_task "b" "second" (some "p")) { unblocked = true })
unfolding program mark_done
next_after = refl

next_task-taken_example : ◌≢◌ {A = String} "b" "a"
next_task-taken_example =
    next_task-taken by_length by_length-IsCollation (some "p") "a" "first" "p" "p-1" ready_db
      (inr next_after)

CreateOutcome_example : CreateOutcome (a ∷ []) (("b", "a") ∷ []) ready_db
CreateOutcome_example = create_task_graph_lem (a ∷ []) (("b", "a") ∷ []) ready_db
