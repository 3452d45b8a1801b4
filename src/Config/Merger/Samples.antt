-- ===== src/Config/Merger/Samples.antt =====
-- Lists that are merged by an index, and a wrapper that is cleaned away.
use docker_devbox_ddb.Prelude.{ℕ, ◌≡◌, refl, [], ◌∷◌}
use docker_devbox_ddb.Config.Value.{
  Value, pos, negsuc, str, dict, list, cons, nil, field, end, find_field,
}
use docker_devbox_ddb.Config.Merger.{insert_from, clean}
use docker_devbox_ddb.Config.Merger.Wrapper.{IsOnce}

inserted : insert_from {A = ℕ} (pos 1) (8 ∷ 9 ∷ []) (1 ∷ 2 ∷ []) ≡ 1 ∷ 8 ∷ 9 ∷ 2 ∷ []
unfolding insert_from
inserted = refl

inserted_negative : insert_from {A = ℕ} (negsuc 0) (8 ∷ 9 ∷ []) (1 ∷ 2 ∷ []) ≡ 1 ∷ 8 ∷ 9 ∷ 2 ∷ []
unfolding insert_from
inserted_negative = refl

abbrev wrapper : Value
wrapper = dict (
    field "ports"
      (dict (field "value" (list (cons (str "80") nil)) (field "merge" (str "insert") end))) end)

wrapper-IsOnce : IsOnce wrapper
unfolding IsOnce find_field
wrapper-IsOnce = ((λ h. (tt, tt)), tt)

unwrapped : clean wrapper ≡ dict (field "ports" (list (cons (str "80") nil)) end)
unfolding clean find_field
unwrapped = refl
