-- ===== src/Registry/Samples.antt =====
-- Small registries of numbers, and the laws of a registry at them.
use mathlib.Core.List.{Perm}
use mathlib.Core.List.Perm
use docker_devbox_ddb.Prelude.{
  ℕ, String, ◌≡◌, refl, true, false, eq_nat, none, some, List, [], ◌∷◌, ok, err, if◌then◌else◌,
  ◌==◌, arith, remove?,
}
use docker_devbox_ddb.Dict.{lookup, insert}
use docker_devbox_ddb.Cache.{Cache}
use docker_devbox_ddb.Registry.{
  Registry, ObjectClass, not_registered, already_registered, register_impl, register, unregister,
  get, has, all,
}
use docker_devbox_ddb.Registry.Validity.{IsValid}
use docker_devbox_ddb.Registry.Laws.{register_taken, get-unregister, unregister_other}
use docker_devbox_ddb.Registry.History.{Call, register_call, unregister_call, perform_all}

abbrev numbers : ObjectClass ℕ
numbers = record { is_instance = λ n. true; name_of = λ n. none }

abbrev store : Cache ℕ
store = record { entries = ("a", 1) ∷ ("b", 2) ∷ []; synced = [] }

abbrev two : Registry ℕ
two = record { objects = 1 ∷ 2 ∷ []; objects_dict = ("a", 1) ∷ ("b", 2) ∷ []; cache = some store }

two-IsValid : IsValid two
unfolding lookup
two-IsValid = record { unique = (refl, (refl, tt)); same = Perm.refl _ }

abbrev calls : List (Call ℕ)
calls = register_call 3 (some "c") ∷ register_call 4 (some "a") ∷ unregister_call "b" none ∷ []

calls-two : (perform_all numbers calls two).objects ≡ 1 ∷ 3 ∷ []
unfolding perform_all register register_impl unregister lookup insert remove?
calls-two = refl

c_is_free : has two "c" none ≡ false
unfolding has lookup
c_is_free = refl

a_is_taken : has two "a" none ≡ true
unfolding has lookup
a_is_taken = refl

a_is_one : lookup {V = ℕ} "a" two.objects_dict ≡ some 1
unfolding lookup
a_is_one = refl

register_taken_example : register numbers two 3 (some "a") ≡ (two, err (already_registered "a"))
register_taken_example = register_taken numbers two 3 "a" "a" refl refl a_is_taken

get-unregister_example :
    ((unregister two "a" none).1 ≡ ok (some 1))
    × ((j : String)
        → get (unregister two "a" none).0 j
          ≡ (if "a" == j then err (not_registered j) else get two j))
    × Perm (all two) (1 ∷ all (unregister two "a" none).0)
get-unregister_example = get-unregister two "a" none 1 two-IsValid a_is_one refl

unregister_other_example : unregister two "a" (some 2) ≡ (two, ok none)
unregister_other_example = unregister_other two "a" 2 1 a_is_one (omega arith)
