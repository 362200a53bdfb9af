-- ===== src/Facade/Examples.antt =====
-- The theorems about the providers of a process at concrete states, and tests.
use mochi_colza.Base.{
  nat_eq, string_eq, ℕ, ◌≡◌, refl, String, true, false, none, some, [], ◌∷◌, arith, ℤ,
}
use mochi_colza.Base.Map.{lookup, insert}
use mochi_colza.Base.OrderedMap
use mochi_colza.Result.{ok, throw, exception, json_parse_error}
use mochi_colza.Group.{compute_group_hash}
use mochi_colza.Provider.State.{Provider}
use mochi_colza.Provider.Membership.{Mona, resolve_mona_addresses}
use mochi_colza.Provider.Config.{JsonValue, process_config}
use mochi_colza.Provider.Samples.{Pipe, backend, host, registry, empty_provider}
use mochi_colza.Facade.Impl.{
  Engine, Ssg, MonaSelf, built, create_pipeline, start, leave, get_mona_addr, construct_impl,
  destruct_impl,
}
use mochi_colza.Facade.Objects.{
  Owned, Process, move_construct, destroy, finalize, construct, push_callback,
}
use mochi_colza.Facade.Finalizing.{count, Tidy, finalize-move_construct}
use mochi_colza.Facade.Lifetimes.{
  Lives, begins, constructs, destroys, Lives-finalize, finalize-construct,
}
use mochi_colza.Facade.Built.{IsNew, construct_impl-IsNew, destruct_impl-construct_impl}

abbrev pub decimal : ℤ → String
decimal n = "0"

-- A group of the members 5 and 9; this one is 5, at rank 0.
abbrev pub ssg : Ssg
ssg = record {
  join_status = none;
  hashed_ids = 5 ∷ 9 ∷ [];
  self_id_status = none;
  self_id = 5;
  rank_status = none;
  self_rank = 0;
  size_status = none;
  ids_status = none;
  member_ids = 5 ∷ 9 ∷ [];
}

abbrev pub self : MonaSelf
self = record { has_addr = true; text = some "na+sm://5"; lookup_error = "mona_addr_lookup failed" }

abbrev pub mona : Mona
mona = record { self = 50; addr_lookup = λ text. some 90; ask = λ id n. some "na+sm://9" }

abbrev pub json : JsonValue String
json = record {
  find = λ key j. none;
  is_object = λ j. true;
  items = λ j. [];
  string_of = λ j. ok j;
  empty_object = "{}";
}

-- Provider id 1 is in use by another program.
abbrev pub engine : Engine
engine = record { rpcs = (1, create_pipeline) ∷ []; callbacks = []; watchers = [] }

abbrev new_provider : Provider Pipe String
new_provider = record empty_provider { mona_self_addr = "na+sm://5" }

construct_test :
    (construct_impl decimal ssg self mona 3 engine 7 0 registry 1 true).1 ≡ built new_provider
unfolding construct_impl compute_group_hash resolve_mona_addresses OrderedMap.insert_new
    OrderedMap.insert lookup
construct_test = refl

construct_impl-IsNew_example :
    (text : String) × (self.text ≡ some text) × IsNew ssg text new_provider
construct_impl-IsNew_example =
    construct_impl-IsNew decimal ssg self mona 3 engine 7 0 1 registry true new_provider
      construct_test

destruct_impl-construct_impl_example :
    (destruct_impl 0 7 (construct_impl decimal ssg self mona 3 engine 7 0 registry 1 true).0).rpcs
    ≡ (0, start) ∷ (0, leave) ∷ (0, get_mona_addr) ∷ (1, create_pipeline) ∷ []
destruct_impl-construct_impl_example =
    destruct_impl-construct_impl decimal ssg self mona 3 engine 7 0 1 registry true
      (omega arith, tt)

-- A `Provider` at address 100.
abbrev owned : Owned Pipe String
owned = record { number = 7; provider_id = 0; provider = new_provider }

abbrev one_object : Process Pipe String
one_object = record {
  engine = record engine { callbacks = 100 ∷ []; watchers = 7 ∷ [] };
  objects = (100, some owned) ∷ [];
}

one-Tidy : Tidy one_object
unfolding count lookup
one-Tidy a = ground arith

finalize-move_construct_example : finalize (destroy (move_construct one_object 200 100) 100) ≡ none
unfolding lookup
finalize-move_construct_example =
    finalize-move_construct one_object 200 100 owned one-Tidy refl refl

finalize-construct_example :
    finalize (record one_object {
      engine =
          destruct_impl 0 7
            (push_callback 300 (record engine { callbacks = 100 ∷ []; watchers = 7 ∷ 7 ∷ [] }));
    })
    ≡ none
unfolding construct process_config lookup
finalize-construct_example =
    finalize-construct backend host json one_object _ 300 7 0 "{"
      (record engine { callbacks = 100 ∷ []; watchers = 7 ∷ 7 ∷ [] }) new_provider
      (throw (exception json_parse_error "Could not parse JSON configuration")) refl refl (λ e. cc)

-- A second `Provider` is made at address 300, and the first one is destroyed.
abbrev two_objects : Process Pipe String
two_objects = record {
  engine =
      push_callback 300
        (construct_impl decimal ssg self mona 3 one_object.engine 8 0 registry 1 false).0;
  objects = (100, some owned) ∷ (300, some (record owned { number = 8 })) ∷ [];
}

program : Lives backend host json one_object (destroy two_objects 100)
unfolding construct construct_impl process_config lookup insert compute_group_hash
    resolve_mona_addresses OrderedMap.insert_new OrderedMap.insert
program =
    destroys
      (constructs begins decimal ssg self mona 3 300 8 0 1 registry false "" (ok tt) refl refl refl)
      100

Lives-finalize_example :
    (u : Process Pipe String) × (finalize (destroy two_objects 100) ≡ some u)
    × ((a : ℕ)
        → lookup a u.objects ≡ elim (lookup a (destroy two_objects 100).objects) [
          | none ↦ none
          | some held_ ↦ some none
        ])
Lives-finalize_example = Lives-finalize backend host json program one-Tidy
