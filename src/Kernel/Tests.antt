-- ===== src/Kernel/Tests.antt =====
-- Runs of the kernel of src-v2/sequence.ts at small inputs, and its theorems applied to them.
use sequence.Prelude.{
  String, true, false, ◌≡◌, refl, Option, none, some, List, [], ◌∷◌, segments, starts_with, ◌==◌,
  if◌then◌else◌,
}
use sequence.Lang.{
  Value, undefined, num, str, nil, cons, Constraint, con, Ty, ty, number, none_left, end,
}
use sequence.Lang.Int.{pos}
use sequence.Kernel.Data.{
  InsertInput, InsertResult, Store, Rule, observation, Phase, BlockTemplate, CellData, make_cell,
  value_changed, of_value,
}
use sequence.Kernel.Tree.{find_cell, find, ensure, update, rules_on_path}
use sequence.Kernel.Host.{Host, ret, Lattice, Env, EmitterCtx, Observer, on_insert, unregister}
use sequence.Kernel.Exec.{look, take_seq, read_clock}
use sequence.Kernel.Calls.{block_of}
use sequence.Kernel.Step.{changed}
use sequence.Kernel.Propagate.{resume}
use sequence.Kernel.Insert.{insert, get, init}
use sequence.Kernel.Invariant.{IsSound, init-IsSound, insert-IsSound}
use sequence.Kernel.Evolution.{Evolves, insert-Evolves}
use sequence.Kernel.Flags.{Restored, insert-Restored, get-Restored}
use sequence.Kernel.ReadBack.{insert-get}
use sequence.Kernel.Quiet.{insert_quiet, plain_fact, plain_block, noted}

abbrev plain : Lattice
plain = record {
  compose = λ a b. b;
  accepts = λ t v p. true;
  same_specificity = λ a b. true;
  stringify = λ t. "";
}

abbrev echo : EmitterCtx → Host (List BlockTemplate)
echo ctx = ret (
    record {
      path = "log.last";
      value = str ctx.cell.path;
      type = none;
      rules = [];
      wheres = [];
      author = none;
      op = none;
    }
    ∷ [])

abbrev env : Env
env = record {
  lattice = plain;
  impls = λ f. none;
  emitters = λ e. some echo;
  custom_guards = λ g. none;
  observers = [];
  clock = λ n. 1000;
}

abbrev fact : String → Value → List Constraint → InsertInput
fact path value wheres = record {
  path = path;
  value = value;
  type = none;
  rules = [];
  wheres = wheres;
  author = none;
  identity = none;
  op = none;
  time = none;
}

abbrev declare : String → Ty → List Rule → InsertInput
declare path t rules = record (fact path undefined []) { type = some t; rules = rules }

abbrev number_type : Ty
number_type = ty number none_left end

abbrev needs : String → List Constraint
needs p = con "exists" (cons (str p) nil) ∷ []

abbrev watch_rule : Phase → Rule
watch_rule phase = record {
  id = "r";
  scope = "x";
  phase = phase;
  when = none;
  emit = some "echo";
  watching = [];
}

abbrev store_of : {A : Type 0} → Option (A × Store) → Store
store_of none = init
store_of (some (a, s)) = s

abbrev value_of : {A : Type 0} → A → Option (A × Store) → A
value_of x none = x
value_of x (some (a, s)) = a

abbrev no_result : InsertResult
no_result = record { block = block_of (fact "" undefined []) 0 0; changes = []; suspended = false }

-- A cell with a type, and a rule that tells of its changes.
abbrev x_rules : InsertInput
x_rules = declare "x.y" number_type (watch_rule observation ∷ [])

abbrev parked_run : Option (InsertResult × Store)
parked_run = insert env 10 (fact "x.y" (num (pos 1)) (needs "gate")) init

abbrev parked : Store
unfolding insert get resume find_cell take_seq read_clock look segments starts_with rules_on_path
    ensure find update
parked = store_of parked_run

abbrev parked_result : InsertResult
unfolding insert get resume find_cell take_seq read_clock look segments starts_with rules_on_path
    ensure find update
parked_result = value_of no_result parked_run

abbrev declared_run : Option (InsertResult × Store)
declared_run = insert env 4 x_rules init

abbrev declared : Store
unfolding insert get resume find_cell take_seq read_clock look segments starts_with rules_on_path
    ensure find update
declared = store_of declared_run

abbrev declared_result : InsertResult
unfolding insert get resume find_cell take_seq read_clock look segments starts_with rules_on_path
    ensure find update
declared_result = value_of no_result declared_run

abbrev told_run : Option (InsertResult × Store)
told_run = insert env 4 (fact "x.y" (num (pos 7)) []) declared

abbrev told : Store
unfolding insert get resume find_cell take_seq read_clock look segments starts_with rules_on_path
    ensure find update
told = store_of told_run

abbrev told_result : InsertResult
unfolding insert get resume find_cell take_seq read_clock look segments starts_with rules_on_path
    ensure find update
told_result = value_of no_result told_run

abbrev fetched_run : Option (Value × Store)
fetched_run = get env 4 "x.y" none parked

abbrev fetched : Store
unfolding insert get resume find_cell take_seq read_clock look segments starts_with rules_on_path
    ensure find update
fetched = store_of fetched_run

abbrev fetched_result : Value
unfolding insert get resume find_cell take_seq read_clock look segments starts_with rules_on_path
    ensure find update
fetched_result = value_of undefined fetched_run

insert-IsSound_example : IsSound parked
unfolding insert get resume find_cell take_seq read_clock look segments starts_with rules_on_path
    ensure find update
insert-IsSound_example =
    insert-IsSound env 10 (fact "x.y" (num (pos 1)) (needs "gate")) init parked_result parked
      init-IsSound refl

insert-Restored_example : Restored init parked
unfolding insert get resume find_cell take_seq read_clock look segments starts_with rules_on_path
    ensure find update
insert-Restored_example =
    insert-Restored env 10 (fact "x.y" (num (pos 1)) (needs "gate")) init parked_result parked refl

get-Restored_example : Restored parked fetched
unfolding insert get resume find_cell take_seq read_clock look segments starts_with rules_on_path
    ensure find update
get-Restored_example = get-Restored env 4 "x.y" none parked fetched_result fetched refl

abbrev x_cell : CellData
unfolding insert get resume find_cell take_seq read_clock look segments starts_with rules_on_path
    ensure find update
x_cell = look (segments "x.y") declared

abbrev later_cell : CellData
unfolding insert get resume find_cell take_seq read_clock look segments starts_with rules_on_path
    ensure find update
later_cell = look (segments "x.y") told

insert-Evolves_example :
    (e : CellData) × (find ("x" ∷ "y" ∷ []) told.root ≡ some e) × Evolves plain x_cell e
unfolding insert get resume find_cell take_seq read_clock look segments starts_with rules_on_path
    ensure find update
insert-Evolves_example =
    insert-Evolves env 4 (fact "x.y" (num (pos 7)) []) declared told_result told ("x" ∷ "y" ∷ [])
      x_cell refl refl

insert_quiet_example :
    insert env 3 (plain_fact "a" (num (pos 1)) (some "me") 5) init
    ≡ some (
      record {
        block = plain_block "a" (num (pos 1)) (some "me") 0 5;
        changes =
            changed (make_cell "a") value_changed (of_value undefined) (of_value (num (pos 1)))
            ∷ [];
        suspended = false;
      },
      record init {
        next_seq = 1;
        root =
            update
              (λ c. noted (plain_block "a" (num (pos 1)) (some "me") 0 5) c (num (pos 1)))
              (segments "a")
              (ensure (segments "a") init.root);
      },
    )
unfolding segments find ensure rules_on_path make_cell
insert_quiet_example =
    insert_quiet env 1 init "a" (num (pos 1)) (some "me") 5 (make_cell "a") refl refl refl refl refl
      refl refl refl refl

-- An observer that answers a write at "a" with one at "b".
abbrev answer : Observer
answer = record {
  id = 0;
  tell = λ r.
      if r.block.path == "a" then Host.insert (fact "b" (num (pos 2)) []) (λ _. ret tt) else ret tt;
}

abbrev observed : Store
unfolding insert find_cell take_seq read_clock look segments starts_with rules_on_path ensure find
    update
observed = store_of (insert (on_insert answer env) 6 (fact "a" (num (pos 1)) []) init)

observed_test : (look (segments "b") observed).value ≡ num (pos 2)
unfolding insert find_cell take_seq read_clock look segments starts_with rules_on_path ensure find
    update
observed_test = refl

-- Once it is unregistered it does not answer.
unobserved_test :
    insert (unregister answer (on_insert answer env)) 6 (fact "a" (num (pos 1)) []) init
    ≡ insert env 6 (fact "a" (num (pos 1)) []) init
unobserved_test = refl

insert-get_example :
    (r : InsertResult) × (t : Store) × (u : Store) × (insert env 3
        (plain_fact "a" (num (pos 1)) (some "me") 5)
        init
      ≡ some (r, t))
    × (get env 3 "a" none t ≡ some (num (pos 1), u))
unfolding segments find ensure rules_on_path make_cell
insert-get_example =
    insert-get env 1 init "a" (num (pos 1)) (some "me") 5 (make_cell "a") none refl refl refl refl
      refl refl refl refl refl refl
