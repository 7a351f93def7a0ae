-- ===== src/Reports/Storage/Local/Laws.antt =====
-- The local backend keeps the contract of a private storage.
use agentledger_mvp_v.Base.{
  ◌≡◌, ◌≢◌, ◌↔◌, refl, subst, ap, sym, ◌∙◌, String, true, none, some, Bytes, [], ◌∷◌, str_eq,
  str_eq_iff, Bool-cases, Option-cases, inl, inr,
}
use agentledger_mvp_v.Base.Result.{err, ok, Result-cases}
use agentledger_mvp_v.Reports.Storage.{
  StorageError, pdf_content_type, validate_pdf_bytes, IsPrivateStorage, KeepsContract,
}
use agentledger_mvp_v.Reports.Storage.Local.{
  Parts, same_parts, is_relative_to, is_refused, Files, read_file, unlink, _path_for_key, write_new,
  checked_path, put, get, delete, local_storage, file_of,
}

pub same_parts_iff : (xs ys : Parts) → (same_parts xs ys ≡ true) ↔ (xs ≡ ys)
same_parts_iff xs ys = (go xs ys, λ e. subst (λ z. same_parts xs z ≡ true) e (self xs))
  where
    go : (xs ys : Parts) → same_parts xs ys ≡ true → xs ≡ ys
    go [] [] h = refl
    go [] (y ∷ ys) h = cc
    go (x ∷ xs) [] h = cc
    go (x ∷ xs) (y ∷ ys) h = elim (Bool-cases (str_eq x y)) [
      | inr e ↦ absurd (let z = rw e at h in cc (z))
      | inl e ↦
          let rest = go xs ys (rw e at h) in let same = (str_eq_iff x y).0 e in cc (rest, same)
    ]

    self : (xs : Parts) → same_parts xs xs ≡ true
    self [] = refl
    self (x ∷ xs) = rw ((str_eq_iff x x).1 refl, self xs) refl

read_file-unlink : (p : Parts) (files : Files) → read_file p (unlink p files) ≡ none
read_file-unlink p [] = refl
read_file-unlink p (f ∷ files) = elim (Bool-cases (same_parts f.0 p)) [
  | inl e ↦ rw e (read_file-unlink p files)
  | inr e ↦ rw (e, e) (read_file-unlink p files)
]

read_file-unlink_ne :
    (p q : Parts) (files : Files) → p ≢ q → read_file q (unlink p files) ≡ read_file q files
read_file-unlink_ne p q [] ne = refl
read_file-unlink_ne p q (f ∷ files) ne = elim (Bool-cases (same_parts f.0 p)) [
  | inl e ↦ elim (Bool-cases (same_parts f.0 q)) [
    | inl d ↦ absurd (ne (sym ((same_parts_iff f.0 p).0 e) ∙ (same_parts_iff f.0 q).0 d))
    | inr d ↦ rw (e, d) (read_file-unlink_ne p q files ne)
  ]
  | inr e ↦ rw (e, read_file-unlink_ne p q files ne) refl
]

module _ (root : Parts) (resolve : String → Parts) where
  checked_path-passed :
      (k : String) (c : Bytes) (t : String) (path : Parts)
      → checked_path root resolve k c t ≡ ok path
      → (validate_pdf_bytes c ≡ ok tt) × (_path_for_key root resolve k ≡ ok path)
  unfolding checked_path
  checked_path-passed k c t path h = elim (Bool-cases (str_eq t pdf_content_type)) [
    | inr e ↦ absurd (let z = rw (e, checked_path) at h in cc (z))
    | inl e ↦ elim (Result-cases (validate_pdf_bytes c)) [
      | inr (x, v) ↦ absurd (let z = rw (e, v, checked_path) at h in cc (z))
      | inl (x, v) ↦ (v, rw (e, v, checked_path) at h)
    ]
  ]

  file_of-path :
      (k : String) (st : Files) (path : Parts)
      → _path_for_key root resolve k ≡ ok path
      → file_of root resolve k st ≡ read_file path st
  unfolding file_of
  file_of-path k st path e = rw (e, file_of) refl

  put-path :
      (k : String) (c : Bytes) (t : String) (st : Files) (path : Parts)
      → checked_path root resolve k c t ≡ ok path
      → put root resolve k c t st ≡ write_new root resolve c st path
  unfolding put
  put-path k c t st path e = rw (e, put) refl

  put-refused :
      (k : String) (c : Bytes) (t : String) (st : Files) (x : StorageError)
      → checked_path root resolve k c t ≡ err x
      → put root resolve k c t st ≡ (err x, st)
  unfolding put
  put-refused k c t st x e = rw (e, put) refl

  delete-path :
      (k : String) (st : Files) (path : Parts)
      → _path_for_key root resolve k ≡ ok path
      → delete root resolve k st ≡ (ok tt, unlink path st)
  unfolding delete
  delete-path k st path e = rw (e, delete) refl

  delete-refused :
      (k : String) (st : Files) (x : StorageError)
      → _path_for_key root resolve k ≡ err x
      → delete root resolve k st ≡ (err x, st)
  unfolding delete
  delete-refused k st x e = rw (e, delete) refl

  write_new-stores :
      (c : Bytes) (st : Files) (path : Parts)
      → (write_new root resolve c st path).0 ≡ ok tt
      → read_file path (write_new root resolve c st path).1 ≡ some c
  unfolding write_new
  write_new-stores c st path h = elim (Option-cases (read_file path st)) [
    | inr (d, r) ↦ absurd (let z = rw (r, write_new) at h in cc (z))
    | inl r ↦ rw (r, write_new, (same_parts_iff path path).1 refl) refl
  ]

  pub put-stores :
      (k : String) (c : Bytes) (t : String) (st : Files)
      → (put root resolve k c t st).0 ≡ ok tt
      → (file_of root resolve k (put root resolve k c t st).1 ≡ some c)
        × (validate_pdf_bytes c ≡ ok tt)
  put-stores k c t st h = elim (Result-cases (checked_path root resolve k c t)) [
    | inr (x, e) ↦ absurd (let z = ap (λ r. r.0) (put-refused k c t st x e) in cc (z, h))
    | inl (path, e) ↦
        let (v, p) = checked_path-passed k c t path e in
        let same = put-path k c t st path e in
        (
          ap (λ r. file_of root resolve k r.1) same
              ∙ file_of-path k _ path p
              ∙ write_new-stores c st path (ap (λ r. r.0) (sym same) ∙ h),
          v,
        )
  ]

  write_new-keeps :
      (c : Bytes) (st : Files) (path q : Parts) (d : Bytes)
      → read_file q st ≡ some d
      → read_file q (write_new root resolve c st path).1 ≡ some d
  unfolding write_new
  write_new-keeps c st path q d h = elim (Option-cases (read_file path st)) [
    | inr (e, r) ↦ rw (r, write_new) h
    | inl r ↦ elim (Bool-cases (same_parts path q)) [
      | inl s ↦ absurd (let same = (same_parts_iff path q).0 s in let z = rw same at r in cc (z, h))
      | inr s ↦ rw (r, write_new, s) h
    ]
  ]

  pub put-keeps :
      (k : String) (c : Bytes) (t : String) (st : Files) (k' : String) (c' : Bytes)
      → file_of root resolve k' st ≡ some c'
      → file_of root resolve k' (put root resolve k c t st).1 ≡ some c'
  unfolding file_of
  put-keeps k c t st k' c' h = elim (Result-cases (checked_path root resolve k c t)) [
    | inr (x, e) ↦ ap (λ r. file_of root resolve k' r.1) (put-refused k c t st x e) ∙ h
    | inl (path, e) ↦ elim (Result-cases (_path_for_key root resolve k')) [
      | inr (x, p) ↦ absurd (let z = rw (p, file_of) at h in cc (z))
      | inl (q, p) ↦
          ap (λ r. file_of root resolve k' r.1) (put-path k c t st path e)
          ∙ file_of-path k' _ q p
          ∙ write_new-keeps c st path q c' (sym (file_of-path k' st q p) ∙ h)
    ]
  ]

  pub get-answers :
      (k : String) (st : Files) (c : Bytes)
      → file_of root resolve k st ≡ some c
      → (get root resolve k st).0 ≡ ok c
  unfolding file_of get
  get-answers k st c h = elim (Result-cases (_path_for_key root resolve k)) [
    | inr (x, e) ↦ absurd (let z = rw (e, file_of) at h in cc (z))
    | inl (path, e) ↦ let there = rw (e, file_of) at h in rw (e, get, there) refl
  ]

  pub get_sound :
      (k : String) (st : Files) (c : Bytes)
      → (get root resolve k st).0 ≡ ok c
      → file_of root resolve k st ≡ some c
  unfolding file_of get
  get_sound k st c h = elim (Result-cases (_path_for_key root resolve k)) [
    | inr (x, e) ↦ absurd (let z = rw (e, get) at h in cc (z))
    | inl (path, e) ↦ elim (Option-cases (read_file path st)) [
      | inl r ↦ absurd (let z = rw (e, get, r) at h in cc (z))
      | inr (d, r) ↦ let z = rw (e, get, r) at h in rw (e, file_of, r) (cc (z))
    ]
  ]

  pub get-same : (k : String) (st : Files) → (get root resolve k st).1 ≡ st
  unfolding get
  get-same k st = elim (Result-cases (_path_for_key root resolve k)) [
    | inr (x, e) ↦ rw (e, get) refl
    | inl (path, e) ↦ elim (Option-cases (read_file path st)) [
      | inl r ↦ rw (e, get, r) refl
      | inr (d, r) ↦ rw (e, get, r) refl
    ]
  ]

  _path_for_key-resolved :
      (k : String) (path : Parts) → _path_for_key root resolve k ≡ ok path → path ≡ resolve k
  unfolding _path_for_key
  _path_for_key-resolved k path h = elim (Bool-cases (is_refused k)) [
    | inl a ↦ absurd (let z = rw (a, _path_for_key) at h in cc (z))
    | inr a ↦ elim (Bool-cases (is_relative_to (resolve k) root)) [
      | inr b ↦ absurd (let z = rw (a, b, _path_for_key) at h in cc (z))
      | inl b ↦ let z = rw (a, b, _path_for_key) at h in cc (z)
    ]
  ]

  pub delete-removes :
      (k : String) (st : Files)
      → (delete root resolve k st).0 ≡ ok tt
      → file_of root resolve k (delete root resolve k st).1 ≡ none
  delete-removes k st h = elim (Result-cases (_path_for_key root resolve k)) [
    | inr (x, e) ↦ absurd (let z = ap (λ r. r.0) (delete-refused k st x e) in cc (z, h))
    | inl (path, e) ↦
        ap (λ r. file_of root resolve k r.1) (delete-path k st path e)
        ∙ file_of-path k _ path e
        ∙ read_file-unlink path st
  ]

  pub delete-keeps :
      (k : String) (st : Files) (k' : String)
      → resolve k ≢ resolve k'
      → file_of root resolve k' (delete root resolve k st).1 ≡ file_of root resolve k' st
  unfolding file_of
  delete-keeps k st k' ne = elim (Result-cases (_path_for_key root resolve k)) [
    | inr (x, e) ↦ ap (λ r. file_of root resolve k' r.1) (delete-refused k st x e)
    | inl (path, e) ↦ elim (Result-cases (_path_for_key root resolve k')) [
      | inr (x, d) ↦ rw (d, file_of) refl
      | inl (q, d) ↦
          ap (λ r. file_of root resolve k' r.1) (delete-path k st path e)
          ∙ file_of-path k' _ q d
          ∙ read_file-unlink_ne path q st
              (λ s. ne (sym (_path_for_key-resolved k path e) ∙ s ∙ _path_for_key-resolved k' q d))
          ∙ sym (file_of-path k' st q d)
    ]
  ]

  -- The contract, with two keys as aliases when they resolve to one path.
  unfoldable pub local_contract : IsPrivateStorage (local_storage root resolve)
  local_contract = record {
    object_at = file_of root resolve;
    Aliases = λ k k'. resolve k ≡ resolve k';
    Responds = λ st. Unit;
    put_stores = put-stores;
    put_keeps = put-keeps;
    get_answers = λ k st c r h. get-answers k st c h;
    get_sound = get_sound;
    get_keeps = λ k st k'. ap (file_of root resolve k') (get-same k st);
    delete_removes = delete-removes;
    delete_keeps = delete-keeps;
  }

  -- The local backend keeps the contract of a private storage: `put` that returns has stored a PDF, and no
  -- `put` overwrites or loses an object; `get` gives back exactly what is stored, and always answers;
  -- `delete` that returns has removed the object under its key, and no `delete` changes what is under a
  -- key that resolves to another path. The object under a key is the file at the path of the key.
  pub local_storage-IsPrivateStorage :
      KeepsContract
        (local_storage root resolve)
        (file_of root resolve)
        (λ k k'. resolve k ≡ resolve k')
        (λ st. Unit)
  unfolding local_contract
  local_storage-IsPrivateStorage = (local_contract, refl, refl, refl)
