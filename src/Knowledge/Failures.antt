-- ===== src/Knowledge/Failures.antt =====
-- Imports and removals that return an error, and the chunks that one of them can orphan.
use go_rag_agent.Base.{
  Bool, true, false, List, [], ◌∷◌, ◌≡◌, refl, Option, none, some, Text, clean, arith, Option-cases,
  ◌⊎◌, inl, inr, delete, Map,
}
use go_rag_agent.Access.{KnowledgeFile}
use go_rag_agent.Knowledge.{
  KnowledgeError, nil_source, context_error, resolve_error, access_error, upsert_error,
  delete_error, persist_error, load_error, embed_error, count_error, DirectorySync, WriteFile,
  Outcome, normalize_sync_paths, diff_paths, union_paths, recorded, persist, commit, next_roots,
  after_apply, sync, remove,
}
use go_rag_agent.Knowledge.Ingest.{
  Stored, KnowledgeStore, KnowledgeSource, Pipeline, fail_with, upsert_records, replace_records,
  delete_paths, after_upsert, read_files, write_records, after_read, after_resolve, add_source,
  add_knowledge, directory_root,
}

-- the errors behind which the store may have changed
unfoldable pub is_store_error : KnowledgeError → Bool
is_store_error (upsert_error err) = true
is_store_error (delete_error err) = true
is_store_error (persist_error err) = true
is_store_error nil_source = false
is_store_error (context_error err) = false
is_store_error (resolve_error err) = false
is_store_error (access_error err) = false
is_store_error (load_error path err) = false
is_store_error (embed_error path err) = false
is_store_error (count_error path) = false

commit-some :
    (write : WriteFile) (next : Map (List Text)) (d : DirectorySync) (err : KnowledgeError)
    → (commit write next d).0 ≡ some err
    → ((commit write next d).1 ≡ d) × (is_store_error err ≡ true)
unfolding commit is_store_error
commit-some write next d err h = elim (Option-cases (persist write next d)) [
  | inl e ↦ absurd (ground (arith, e, h))
  | inr (x, e) ↦ ground (arith, e, h)
]

module _ {S : Type 0} where
  -- What a call that fails keeps: the record, and the store unless it failed there.
  pub record Keeps (d : DirectorySync) (s : S) (r : Outcome S) (err : KnowledgeError) : Type 0 where
    pub same_record : r.1 ≡ d
    pub same_store : (r.2 ≡ s) ⊎ (is_store_error err ≡ true)

  -- the errors of a callback come from the store
  abbrev StoreErrors : Option KnowledgeError × S → Type 0
  StoreErrors r = (err : KnowledgeError) → r.0 ≡ some err → is_store_error err ≡ true

  fail_with-upsert : (r : Option Text × S) → StoreErrors (fail_with upsert_error r)
  unfolding fail_with is_store_error
  fail_with-upsert (none, s) err h = absurd (ground arith)
  fail_with-upsert (some x, s) err h = ground arith

  fail_with-delete : (r : Option Text × S) → StoreErrors (fail_with delete_error r)
  unfolding fail_with is_store_error
  fail_with-delete (none, s) err h = absurd (ground arith)
  fail_with-delete (some x, s) err h = ground arith

  after_apply-some :
      (write : WriteFile) (next : Map (List Text)) (d : DirectorySync)
      → (r : Option KnowledgeError × S) (err : KnowledgeError) → StoreErrors r
      → (after_apply write next d r).0 ≡ some err
      → ((after_apply write next d r).1 ≡ d) × (is_store_error err ≡ true)
  unfolding after_apply
  after_apply-some write next d (some x, s) err errors h = (refl, errors err h)
  after_apply-some write next d (none, s) err errors h = commit-some write next d err h

module _ {V S : Type 0} (st : KnowledgeStore V S) where
  upsert_records-StoreErrors :
      (records : List (Stored V)) (s : S) → StoreErrors (upsert_records st records s)
  unfolding upsert_records
  upsert_records-StoreErrors [] s err h = absurd (ground arith)
  upsert_records-StoreErrors (r ∷ records) s err h =
      fail_with-upsert (st.upsert (r ∷ records) s) err h

  delete_paths-StoreErrors : (paths : List Text) (s : S) → StoreErrors (delete_paths st paths s)
  unfolding delete_paths
  delete_paths-StoreErrors [] s err h = absurd (ground arith)
  delete_paths-StoreErrors (x ∷ paths) s err h =
      fail_with-delete (st.delete_by_source_paths (x ∷ paths) s) err h

  after_upsert-StoreErrors :
      (stale : List Text) (r : Option KnowledgeError × S)
      → StoreErrors r
      → StoreErrors (after_upsert st stale r)
  unfolding after_upsert
  after_upsert-StoreErrors stale (some x, s) errors err h = errors err h
  after_upsert-StoreErrors stale (none, s) errors err h = delete_paths-StoreErrors stale s err h

module _ {V S : Type 0} (p : Pipeline V) (st : KnowledgeStore V S) where
  sync-Keeps :
      (root : Text) (raw : List Text) (records : List (Stored V)) (d : DirectorySync) (s : S)
      → (err : KnowledgeError)
      → (sync p.write root raw (replace_records st records) d s).0 ≡ some err
      → Keeps d s (sync p.write root raw (replace_records st records) d s) err
  unfolding sync replace_records
  sync-Keeps root raw records d s err h =
      let current : List Text = normalize_sync_paths raw in
      let stale : List Text = diff_paths (recorded (clean root) d) current in
      let (same, store) =
        after_apply-some p.write (next_roots (clean root) current d) d
          (after_upsert st stale (upsert_records st records s)) err
          (after_upsert-StoreErrors st stale (upsert_records st records s)
            (upsert_records-StoreErrors st records s))
          h in
      record { same_record = same; same_store = inr store }

  remove-Keeps :
      (root : Text) (raw : List Text) (d : DirectorySync) (s : S) (err : KnowledgeError)
      → (remove p.write root raw (delete_paths st) d s).0 ≡ some err
      → Keeps d s (remove p.write root raw (delete_paths st) d s) err
  unfolding remove
  remove-Keeps root raw d s err h =
      let paths : List Text = union_paths (recorded (clean root) d) (normalize_sync_paths raw) in
      let (same, store) =
        after_apply-some p.write (delete (clean root) d.roots) d (delete_paths st paths s) err
          (delete_paths-StoreErrors st paths s) h in
      record { same_record = same; same_store = inr store }

  write_records-Keeps :
      (root : Option Text) (records : List (Stored V)) (paths : List Text)
      → (d : DirectorySync) (s : S) (err : KnowledgeError)
      → (write_records p st root records paths d s).0 ≡ some err
      → Keeps d s (write_records p st root records paths d s) err
  unfolding write_records
  write_records-Keeps none records paths d s err h = record {
    same_record = refl;
    same_store = inr (upsert_records-StoreErrors st records s err h);
  }
  write_records-Keeps (some root) records paths d s err h = sync-Keeps root paths records d s err h

  after_read-Keeps :
      (root : Option Text) (r : KnowledgeError ⊎ List (Stored V) × List Text)
      → (d : DirectorySync) (s : S) (err : KnowledgeError)
      → (after_read p st root r d s).0 ≡ some err
      → Keeps d s (after_read p st root r d s) err
  unfolding after_read
  after_read-Keeps root (inl x) d s err h = record { same_record = refl; same_store = inl refl }
  after_read-Keeps root (inr (records, paths)) d s err h =
      write_records-Keeps root records paths d s err h

  after_resolve-Keeps :
      (root : Option Text) (r : Text ⊎ List KnowledgeFile) (d : DirectorySync) (s : S)
      → (err : KnowledgeError) → (after_resolve p st root r d s).0 ≡ some err
      → Keeps d s (after_resolve p st root r d s) err
  unfolding after_resolve
  after_resolve-Keeps root (inl x) d s err h = record { same_record = refl; same_store = inl refl }
  after_resolve-Keeps root (inr files) d s err h =
      after_read-Keeps root (read_files p files) d s err h

  -- An import that returns an error, whatever it is, leaves the record of roots as it was, and the
  -- store too unless the error is one of the store or of writing the manifest.
  pub add_knowledge-Keeps :
      (ctx : Option Text) (src : Option KnowledgeSource) (d : DirectorySync) (s : S)
      → (err : KnowledgeError) → (add_knowledge p st ctx src d s).0 ≡ some err
      → Keeps d s (add_knowledge p st ctx src d s) err
  unfolding add_knowledge add_source
  add_knowledge-Keeps (some x) src d s err h = record { same_record = refl; same_store = inl refl }
  add_knowledge-Keeps none none d s err h = record { same_record = refl; same_store = inl refl }
  add_knowledge-Keeps none (some src) d s err h =
      after_resolve-Keeps (directory_root src) (p.resolve src) d s err h
