-- ===== src/Knowledge/Recorded.antt =====
-- What the record of directory roots promises for the store: a path that is indexed is recorded under
-- some root, so a later call finds it when its file is gone.
use go_rag_agent.Base.{
  Bool, true, false, not, ◌&&◌, List, [], ◌∷◌, ◌≡◌, refl, ap, ◌∙◌, Option, none, some, Text,
  text_eq, text_eq→eq, trim_space, is_empty, any, filter, delete, find-put, find-put_ne,
  find-delete, find-delete_ne, clean, any-compact, any-sort_texts, sort_texts, arith, Bool-cases,
  Option-cases, if◌then◌else◌, inl, inr, Map,
}
use go_rag_agent.Knowledge.{
  KnowledgeError, DirectorySync, WriteFile, clean_sync_paths, normalize_sync_paths, diff_paths,
  or_none, recorded, persist, commit, next_roots, after_apply,
}

-- a path that the record keeps as it is
unfoldable pub is_clean : Text → Bool
is_clean path = not (is_empty (trim_space path)) && text_eq (clean (trim_space path)) path

abbrev pub unclean : Text → Bool
unclean path = not (is_clean path)

abbrev on_cleaned : (Text → Bool) → Text → Bool
on_cleaned p path = not (is_empty (trim_space path)) && p (clean (trim_space path))

any-clean_sync_paths :
    (p : Text → Bool) (l : List Text) → any p (clean_sync_paths l) ≡ any (on_cleaned p) l
unfolding any clean_sync_paths
any-clean_sync_paths p [] = refl
any-clean_sync_paths p (x ∷ l) = ground (arith, any-clean_sync_paths p l)

any-normalize_sync_paths :
    (p : Text → Bool) (l : List Text) → any p (normalize_sync_paths l) ≡ any (on_cleaned p) l
unfolding normalize_sync_paths
any-normalize_sync_paths p l =
    any-compact p (sort_texts (clean_sync_paths l))
    ∙ (any-sort_texts p (clean_sync_paths l) ∙ any-clean_sync_paths p l)

on_cleaned-is_clean : (p : Text → Bool) (x : Text) → is_clean x ≡ true → on_cleaned p x ≡ p x
unfolding is_clean
on_cleaned-is_clean p x h =
    ground (arith, ap p (text_eq→eq (clean (trim_space x)) x (ground arith)))

any-on_cleaned :
    (p : Text → Bool) (l : List Text) → any unclean l ≡ false → any (on_cleaned p) l ≡ any p l
unfolding any
any-on_cleaned p [] h = refl
any-on_cleaned p (x ∷ l) h = ground (arith, any-on_cleaned p l, on_cleaned-is_clean p x)

-- normalizing a list of clean paths only reorders it and drops repetitions
pub any-normalize_clean :
    (p : Text → Bool) (l : List Text)
    → any unclean l ≡ false
    → any p (normalize_sync_paths l) ≡ any p l
any-normalize_clean p l h = any-normalize_sync_paths p l ∙ any-on_cleaned p l h

any-filter_eq :
    (p : Text) (q : Text → Bool) (l : List Text)
    → any (text_eq p) (filter q l) ≡ (any (text_eq p) l && q p)
unfolding any filter
any-filter_eq p q [] = refl
any-filter_eq p q (x ∷ l) =
    ground (arith, any-filter_eq p q l, λ (h : text_eq p x ≡ true). ap q (text_eq→eq p x h))

pub any-diff_paths :
    (p : Text) (previous current : List Text)
    → any (text_eq p) (diff_paths previous current)
      ≡ (any (text_eq p) previous && not (any (text_eq p) current))
unfolding diff_paths
any-diff_paths p previous current =
    any-filter_eq p (λ path. not (any (text_eq path) current)) previous

any-nil : (p : Text → Bool) (l : List Text) → is_empty l ≡ true → any p l ≡ false
unfolding any
any-nil p [] h = refl
any-nil p (x ∷ l) h = absurd (ground arith)

pub recorded-next_roots :
    (q root : Text) (current : List Text) (d : DirectorySync)
    → recorded q (record d { roots = next_roots root current d })
      ≡ (if text_eq q root then current else recorded q d)
unfolding recorded next_roots or_none
recorded-next_roots q root [] d = elim (Bool-cases (text_eq q root)) [
  | inl e ↦ rw (e, text_eq→eq q root e, find-delete root d.roots) refl
  | inr e ↦ rw (e, find-delete_ne q root d.roots e) refl
]
recorded-next_roots q root (x ∷ l) d = elim (Bool-cases (text_eq q root)) [
  | inl e ↦ rw (e, text_eq→eq q root e, find-put root (x ∷ l) d.roots) refl
  | inr e ↦ rw (e, find-put_ne q root (x ∷ l) d.roots e) refl
]

pub recorded-delete :
    (q root : Text) (d : DirectorySync)
    → recorded q (record d { roots = delete root d.roots })
      ≡ (if text_eq q root then [] else recorded q d)
unfolding next_roots
recorded-delete q root d = recorded-next_roots q root [] d

pub commit-none :
    (write : WriteFile) (next : Map (List Text)) (d d' : DirectorySync)
    → commit write next d ≡ (none, d')
    → d' ≡ record d { roots = next }
unfolding commit
commit-none write next d d' h = elim (Option-cases (persist write next d)) [
  | inl e ↦ ground (arith, e, h)
  | inr (err, e) ↦ absurd (ground (arith, e, h))
]

module _ {S : Type 0} where
  -- a call that succeeds has run its callback and keeps the next roots
  pub after_apply-none :
      (write : WriteFile) (next : Map (List Text)) (d : DirectorySync)
      → (r : Option KnowledgeError × S) (d' : DirectorySync) (s' : S)
      → after_apply write next d r ≡ (none, d', s')
      → (r ≡ (none, s')) × (d' ≡ record d { roots = next })
  unfolding after_apply
  after_apply-none write next d (some err, s) d' s' h = absurd (ground arith)
  after_apply-none write next d (none, s) d' s' h =
      (ground arith, commit-none write next d d' (ground arith))
