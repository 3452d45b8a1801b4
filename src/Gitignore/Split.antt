-- ===== src/Gitignore/Split.antt =====
-- ddb/feature/gitignore/actions.py: a file that has the block splits into what it was joined from,
-- and what a target adds to a file is taken off again.
use text.Mathlib.TextLemmas.{append_inj}
use docker_devbox_ddb.Prelude.{
  String, true, false, List, [], ◌∷◌, ◌++◌, ◌==◌, eq_string, ◌≡◌, refl, sym, ap, ◌∙◌, eq_iff,
  eq_refl, Bool-cases, inl, inr, All, append-nil,
}
use docker_devbox_ddb.Gitignore.{
  Markers, Blocks, start_limit, end_limit, get_block_limit, any_limit, is_block_limit, split_from,
  split_block_lines,
}

module _ (markers : Markers) where
  -- Lines that are not limits of the block
  abbrev pub IsPlain : String → Type 0
  IsPlain line =
      (is_block_limit markers line true ≡ false) × (is_block_limit markers line false ≡ false)

  -- A line that begins the block, and one that ends it
  pub record IsStart (line : String) : Type 0 where
    pub starts : is_block_limit markers line true ≡ true
    pub not_end : is_block_limit markers line false ≡ false

  pub record IsEnd (line : String) : Type 0 where
    pub ends : is_block_limit markers line false ≡ true

  split-before :
      (xs ys : List String)
      → All IsPlain xs
      → split_from markers false false (xs ++ ys) ≡ record (split_from markers false false ys) {
        before = xs ++ (split_from markers false false ys).before;
      }
  unfolding split_from
  split-before [] ys p = refl
  split-before (x ∷ xs) ys p = rw (p.0.0, p.0.1, split-before xs ys p.1) refl

  split-content :
      (xs ys : List String)
      → All IsPlain xs
      → split_from markers true false (xs ++ ys) ≡ record (split_from markers true false ys) {
        content = xs ++ (split_from markers true false ys).content;
      }
  unfolding split_from
  split-content [] ys p = refl
  split-content (x ∷ xs) ys p = rw (p.0.1, split-content xs ys p.1) refl

  split-after :
      (zs : List String)
      → split_from markers true true zs ≡ record { content = []; before = []; after = zs }
  unfolding split_from
  split-after [] = refl
  split-after (z ∷ zs) = rw (split-after zs) refl

  -- A file with the block splits into the lines up to the block's first limit, the lines of the
  -- block, and those from its last limit on.
  pub split-managed :
      (xs cs zs : List String) (s e : String)
      → All IsPlain xs
      → All IsPlain cs
      → IsStart s
      → IsEnd e
      → split_block_lines markers (xs ++ s ∷ (cs ++ e ∷ zs))
        ≡ record { before = xs ++ s ∷ []; content = cs; after = e ∷ zs }
  unfolding split_block_lines
  split-managed xs cs zs s e px pc st en =
      split-before xs (s ∷ (cs ++ e ∷ zs)) px
      ∙ ap (λ (b : Blocks). record b { before = xs ++ b.before })
          (at_start
            ∙ ap (λ (b : Blocks). record b { before = s ∷ b.before })
                (split-content cs (e ∷ zs) pc
                  ∙ ap (λ (b : Blocks). record b { content = cs ++ b.content }) at_end))
      ∙ rw append-nil refl
    where
      at_start :
          split_from markers false false (s ∷ (cs ++ e ∷ zs))
          ≡ record (split_from markers true false (cs ++ e ∷ zs)) {
            before = s ∷ (split_from markers true false (cs ++ e ∷ zs)).before;
          }
      at_start = unfold split_from in rw (st.starts, st.not_end) refl

      at_end :
          split_from markers true false (e ∷ zs)
          ≡ record { content = []; before = []; after = e ∷ zs }
      at_end = unfold split_from in rw (en.ends, split-after zs) refl

  pub get_block_limit-IsEnd : IsEnd (get_block_limit markers false)
  unfolding get_block_limit is_block_limit
  get_block_limit-IsEnd = record { ends = rw eq_refl refl }

  start-not-end : (m : String) (ms : List String) → any_limit end_limit ms (start_limit m) ≡ false
  unfolding any_limit
  start-not-end m [] = refl
  start-not-end m (n ∷ ms) = elim (Bool-cases (end_limit n == start_limit m)) [
    | inl same ↦ absurd (apart n m ((eq_iff (end_limit n) (start_limit m)).0 same))
    | inr other ↦ rw other (start-not-end m ms)
  ]
    where
      apart : (n m : String) → end_limit n ≡ start_limit m → ⊥
      apart n m p =
          unfold end_limit start_limit in
          let heads : ◌≡◌ {A = String} "###< " "###> " = (append_inj p refl).0 in
          cc ((eq_iff "###< " "###> ").1 heads)

  pub get_block_limit-IsStart : IsStart (get_block_limit markers true)
  unfolding get_block_limit is_block_limit
  get_block_limit-IsStart = record {
    starts = rw eq_refl refl;
    not_end = start-not-end markers.first (markers.first ∷ markers.others);
  }

  split-dropped :
      (lines : List String)
      → All IsPlain lines
      → split_from markers false true lines ≡ record { content = []; before = []; after = [] }
  unfolding split_from
  split-dropped [] p = refl
  split-dropped (line ∷ lines) p = rw (p.0.0, split-dropped lines p.1) refl

  -- A file whose first line ends a block, and that has no further limit, splits into nothing: the
  -- lines behind the stray limit are in none of the three parts.
  pub split-stray_end :
      (e : String) (lines : List String)
      → IsEnd e
      → is_block_limit markers e true ≡ false
      → All IsPlain lines
      → split_block_lines markers (e ∷ lines) ≡ record { content = []; before = []; after = [] }
  unfolding split_block_lines split_from
  split-stray_end e lines en not_start plain =
      rw (en.ends, not_start, split-dropped lines plain) refl

  -- A file without limits is all before the block.
  pub split-plain :
      (lines : List String)
      → All IsPlain lines
      → split_block_lines markers lines ≡ record { content = []; before = lines; after = [] }
  unfolding split_block_lines
  split-plain lines p =
      ap (split_from markers false false) (sym (append-nil lines))
      ∙ split-before lines [] p
      ∙ unfold split_from in
        ap (λ (l : List String). record { content = []; before = l; after = [] }) (append-nil lines)
