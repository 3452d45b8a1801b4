-- ===== src/Certs/Rounds.antt =====
-- ddb/feature/certs/actions.py: a certificate that was generated is generated once, and is removed.
use docker_devbox_ddb.Prelude.{
  String, Bool, true, false, ◌||◌, none, some, List, [], ◌∷◌, ◌++◌, append_assoc, append-nil,
  if◌then◌else◌, ◌≡◌, refl, sym, ap, ◌∙◌, arith, ◌==◌, eq_iff, Option-cases, inl, inr,
}
use docker_devbox_ddb.Dict.{lookup, insert, has_key, lookup-remove}
use docker_devbox_ddb.Certs.{
  Event, Certs, Authority, file_generated, file_deleted, certs_generated, certs_available,
  certs_removed, Response, tell, get_certs_path, remove_file, remove_cert,
}

abbrev pub when_true : Bool → List Event → List Event
when_true b events = if b then events else []

-- An answer with both parts
abbrev pub full_response : String → String → Response
full_response key_text text = record { private_key = some key_text; certificate = some text }

-- The events of a removal, for which of the two files were there
abbrev pub removal_events : String → String → Bool → Bool → List Event
removal_events domain certificate a b =
    when_true a (file_deleted certificate ∷ [])
    ++ (when_true b (file_deleted certificate ∷ [])
        ++ when_true (a || b) (certs_removed domain ∷ []))

lookup-remove_file :
    {X : Type 0} (authority : Authority X) (file certificate path : String) (s : Certs)
    → lookup path (remove_file authority file certificate s).files
      ≡ (if file == path then none else lookup path s.files)
unfolding tell
lookup-remove_file authority file certificate path s = elim (Option-cases (lookup file s.files)) [
  | inl absent ↦ rw absent (ground (arith, eq_iff file path))
  | inr (text, there) ↦ rw there (lookup-remove file s.files path)
]

told-remove_file :
    {X : Type 0} (authority : Authority X) (file certificate : String) (s : Certs)
    → (remove_file authority file certificate s).told
      ≡ s.told ++ when_true (has_key file s.files) (file_deleted certificate ∷ [])
unfolding tell
told-remove_file authority file certificate s = elim (Option-cases (lookup file s.files)) [
  | inl absent ↦ rw absent (sym (append-nil s.told))
  | inr (text, there) ↦ rw there refl
]

-- The announcement of the removal, behind the two files
told-announced :
    (events l : List Event) (b : Bool) (domain : String) (s : Certs)
    → s.told ≡ events ++ l
    → (if b then tell (certs_removed domain) s else s).told
      ≡ events ++ (l ++ when_true b (certs_removed domain ∷ []))
unfolding tell
told-announced events l true domain s h =
    ap (λ m. m ++ certs_removed domain ∷ []) h ∙ append_assoc events l (certs_removed domain ∷ [])
told-announced events l false domain s h = h ∙ ap (λ m. events ++ m) (sym (append-nil l))

files-announced :
    (b : Bool) (domain : String) (s : Certs)
    → (if b then tell (certs_removed domain) s else s).files ≡ s.files
unfolding tell
files-announced true domain s = refl
files-announced false domain s = refl

module _ {X : Type 0} (authority : Authority X) where
  -- When the two files of a domain have different paths, removing its certificate leaves neither of
  -- them and every other file; the events are one deletion for each of the two that was there, always with the
  -- certificate's path, and the removal of the domain if one was.
  pub remove_cert-gone :
      (domain : String) (s : Certs)
      → ((get_certs_path authority domain).0 == (get_certs_path authority domain).1) ≡ false
      → let certificate = (get_certs_path authority domain).0 in
        let private_key = (get_certs_path authority domain).1 in
        ((path : String)
          → lookup path (remove_cert authority domain s).files
            ≡ (if certificate == path || private_key == path then none else lookup path s.files))
        × ((remove_cert authority domain s).told
            ≡ s.told
              ++ removal_events domain certificate
                  (has_key certificate s.files)
                  (has_key private_key s.files))
  unfolding remove_cert
  remove_cert-gone domain s h =
      let certificate = (get_certs_path authority domain).0 in
      let private_key = (get_certs_path authority domain).1 in
      let s1 = remove_file authority certificate certificate s in
      let s2 = remove_file authority private_key certificate s1 in
      let b = has_key certificate s.files in
      let kept : has_key private_key s1.files ≡ has_key private_key s.files =
        ground (arith, h, lookup-remove_file authority certificate certificate private_key s) in
      (
        (λ path.
            ap (λ d. lookup path d) (files-announced (b || has_key private_key s1.files) domain s2)
            ∙ lookup-remove_file authority private_key certificate path s1
            ∙ ground (arith, lookup-remove_file authority certificate certificate path s)),
        told-announced s.told
              (when_true b (file_deleted certificate ∷ [])
                ++ when_true (has_key private_key s1.files) (file_deleted certificate ∷ []))
              (b || has_key private_key s1.files) domain s2
              (told-remove_file authority private_key certificate s1
                ∙ ap
                    (λ l.
                      l ++ when_true (has_key private_key s1.files) (file_deleted certificate ∷ []))
                    (told-remove_file authority certificate certificate s)
                ∙ append_assoc s.told (when_true b (file_deleted certificate ∷ []))
                    (when_true (has_key private_key s1.files) (file_deleted certificate ∷ [])))
            ∙ ap (λ l. s.told ++ l) (append_assoc (when_true b (file_deleted certificate ∷ [])) _ _)
            ∙ ap (λ k. s.told ++ removal_events domain certificate b k) kept,
      )

  -- The state behind the generation of a certificate
  abbrev pub generated_state : String → Bool → String → String → Certs → Certs
  generated_state domain wildcard key_text certificate_text s =
      let certificate = (get_certs_path authority domain).0 in
      let private_key = (get_certs_path authority domain).1 in
      record {
        files = insert certificate certificate_text (insert private_key key_text s.files);
        told =
            ((s.told ++ file_generated private_key ∷ file_generated certificate ∷ [])
              ++ certs_generated domain wildcard certificate private_key ∷ [])
            ++ certs_available domain wildcard private_key certificate ∷ [];
      }
