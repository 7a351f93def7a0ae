-- ===== src/Reports/Storage/S3/Laws.antt =====
-- The S3 backend keeps the contract of a private storage, whatever requests fail.
use agentledger_mvp_v.Base.{
  ℕ, suc, ◌≡◌, ◌≢◌, refl, sym, ap, ◌∙◌, String, true, false, Option, none, some, Bytes, List, [],
  ◌∷◌, ◌==◌, ==_iff, str_eq, str_eq_iff, if◌then◌else◌, Bool-cases, Option-cases, inl, inr, ◌⊎◌,
}
use agentledger_mvp_v.Base.Result.{Result, err, ok, Result-cases, ok-injective}
use agentledger_mvp_v.Reports.Storage.{
  StorageError, read_failed, pdf_content_type, validate_pdf_bytes, KeepsContract,
}
use agentledger_mvp_v.Reports.Storage.S3.{
  Fault, Bucket, find_object, remove_object, same_bytes, counted, get_object, _read_optional,
  put_object, upload, put_over, checked, put, get, delete, s3_storage, _is_not_found,
}

same_bytes-eq : (a b : Bytes) → same_bytes a b ≡ true → a ≡ b
same_bytes-eq [] [] h = refl
same_bytes-eq [] (y ∷ b) h = cc
same_bytes-eq (x ∷ a) [] h = cc
same_bytes-eq (x ∷ a) (y ∷ b) h = elim (Bool-cases (x == y)) [
  | inr e ↦ absurd (let z = rw e at h in cc (z))
  | inl e ↦
      let rest = same_bytes-eq a b (rw e at h) in let same = (==_iff x y).0 e in cc (rest, same)
]

find_object-remove :
    (k : String) (os : List (String × Bytes)) → find_object k (remove_object k os) ≡ none
find_object-remove k [] = refl
find_object-remove k (o ∷ os) = elim (Bool-cases (str_eq o.0 k)) [
  | inl e ↦ rw e (find_object-remove k os)
  | inr e ↦ rw (e, e) (find_object-remove k os)
]

find_object-remove_ne :
    (k k' : String) (os : List (String × Bytes))
    → k ≢ k'
    → find_object k' (remove_object k os) ≡ find_object k' os
find_object-remove_ne k k' [] ne = refl
find_object-remove_ne k k' (o ∷ os) ne = elim (Bool-cases (str_eq o.0 k)) [
  | inl e ↦ elim (Bool-cases (str_eq o.0 k')) [
    | inl d ↦ absurd (ne (sym ((str_eq_iff o.0 k).0 e) ∙ (str_eq_iff o.0 k').0 d))
    | inr d ↦ rw (e, d) (find_object-remove_ne k k' os ne)
  ]
  | inr e ↦ rw (e, find_object-remove_ne k k' os ne) refl
]

-- A new object is found under its key, and hides no other.
find_object-new_first :
    (k : String) (c : Bytes) (os : List (String × Bytes)) → find_object k ((k, c) ∷ os) ≡ some c
find_object-new_first k c os = rw ((str_eq_iff k k).1 refl) refl

find_object-new_keeps :
    (k : String) (c : Bytes) (os : List (String × Bytes)) (k' : String) (c' : Bytes)
    → find_object k os ≡ none
    → find_object k' os ≡ some c'
    → find_object k' ((k, c) ∷ os) ≡ some c'
find_object-new_keeps k c os k' c' absent h = elim (Bool-cases (str_eq k k')) [
  | inr e ↦ rw e h
  | inl e ↦ absurd (let z = rw ((str_eq_iff k k').0 e) at absent in cc (z, h))
]

-- A request fails with a code for a missing object only where there is none.
abbrev pub IsHonest : (ℕ → Option Fault) → Type 0
IsHonest fault = (n : ℕ) (f : Fault) → fault n ≡ some f → _is_not_found f.failure ≡ false

module _ (fault : ℕ → Option Fault) where
  get_object-answers :
      (k : String) (b : Bucket)
      → fault b.requests ≡ none
      → _read_optional fault k b ≡ ok (find_object k b.objects)
  unfolding _read_optional get_object
  get_object-answers k b e = elim (Option-cases (find_object k b.objects)) [
    | inl d ↦ rw (_read_optional, get_object, e, d) refl
    | inr (c, d) ↦ rw (_read_optional, get_object, e, d) refl
  ]

  -- A read fails, or it says what is under the key.
  read-cases :
      (k : String) (b : Bucket)
      → IsHonest fault
      → ((x : StorageError) × (_read_optional fault k b ≡ err x))
        ⊎ (_read_optional fault k b ≡ ok (find_object k b.objects))
  unfolding _read_optional get_object
  read-cases k b honest = elim (Option-cases (fault b.requests)) [
    | inl e ↦ inr (get_object-answers k b e)
    | inr (f, e) ↦ inl (read_failed, rw (_read_optional, get_object, e, honest b.requests f e) refl)
  ]

  put_object-answered :
      (k : String) (c : Bytes) (b : Bucket)
      → fault b.requests ≡ none
      → put_object fault k c b
        ≡ (ok tt, record { objects = (k, c) ∷ b.objects; requests = suc b.requests })
  unfolding put_object
  put_object-answered k c b e = rw (put_object, e) refl

  put_object-failed :
      (k : String) (c : Bytes) (b : Bucket) (f : Fault)
      → fault b.requests ≡ some f
      → put_object fault k c b ≡ (
        err f.failure,
        if f.carried_out
            then record { objects = (k, c) ∷ b.objects; requests = suc b.requests }
            else counted fault b,
      )
  unfolding put_object
  put_object-failed k c b f e = rw (put_object, e) refl

  -- What an upload leaves: the object in front, or the bucket as it was.
  upload-stores :
      (k : String) (c : Bytes) (b : Bucket)
      → (upload fault k c b).0 ≡ ok tt
      → (upload fault k c b).1.objects ≡ (k, c) ∷ b.objects
  unfolding upload
  upload-stores k c b h = elim (Option-cases (fault b.requests)) [
    | inr (f, e) ↦ absurd (let z = rw (upload, put_object-failed k c b f e) at h in cc (z))
    | inl e ↦ rw (upload, put_object-answered k c b e, put_object-answered k c b e) refl
  ]

  upload-leaves :
      (k : String) (c : Bytes) (b : Bucket)
      → ((upload fault k c b).1.objects ≡ (k, c) ∷ b.objects)
        ⊎ ((upload fault k c b).1.objects ≡ b.objects)
  unfolding upload
  upload-leaves k c b = elim (Option-cases (fault b.requests)) [
    | inl e ↦ inl (rw (upload, put_object-answered k c b e, put_object-answered k c b e) refl)
    | inr (f, e) ↦ elim (Bool-cases f.carried_out) [
      | inl d ↦ inl (rw (upload, put_object-failed k c b f e, put_object-failed k c b f e, d) refl)
      | inr d ↦ inr (rw (upload, put_object-failed k c b f e, put_object-failed k c b f e, d) refl)
    ]
  ]

  put-passed :
      (k : String) (c : Bytes) (t : String) (b : Bucket)
      → checked fault c t ≡ ok tt
      → put fault k c t b ≡ put_over fault (_read_optional fault k b) k c (counted fault b)
  unfolding put
  put-passed k c t b e = rw (put, e) refl

  put-refused :
      (k : String) (c : Bytes) (t : String) (b : Bucket) (x : StorageError)
      → checked fault c t ≡ err x
      → put fault k c t b ≡ (err x, b)
  unfolding put
  put-refused k c t b x e = rw (put, e) refl

  checked-pdf : (c : Bytes) (t : String) → checked fault c t ≡ ok tt → validate_pdf_bytes c ≡ ok tt
  unfolding checked
  checked-pdf c t h = elim (Bool-cases (str_eq t pdf_content_type)) [
    | inr e ↦ absurd (let z = rw (checked, e) at h in cc (z))
    | inl e ↦ rw (checked, e) at h
  ]

  put_over-stores :
      (k : String) (c : Bytes) (b : Bucket) (read : Result StorageError (Option Bytes))
      → ((x : StorageError) × (read ≡ err x)) ⊎ (read ≡ ok (find_object k b.objects))
      → (put_over fault read k c b).0 ≡ ok tt
      → find_object k (put_over fault read k c b).1.objects ≡ some c
  unfolding put_over
  put_over-stores k c b (err x) says h = absurd (cc (h))
  put_over-stores k c b (ok none) says h =
      rw (upload-stores k c b h) (find_object-new_first k c b.objects)
  put_over-stores k c b (ok (some d)) says h = elim (Bool-cases (same_bytes d c)) [
    | inr e ↦ absurd (let z = rw (put_over, e) at h in cc (z))
    | inl e ↦ elim says [
      | inl (x, q) ↦ absurd (cc (q))
      | inr q ↦
          let there : some d ≡ find_object k b.objects = ok-injective _ _ q in
          rw (put_over, e) (sym there ∙ ap some (same_bytes-eq d c e))
    ]
  ]

  put_over-keeps :
      (k : String) (c : Bytes) (b : Bucket) (read : Result StorageError (Option Bytes))
      → ((x : StorageError) × (read ≡ err x)) ⊎ (read ≡ ok (find_object k b.objects))
      → (k' : String) (c' : Bytes) → find_object k' b.objects ≡ some c'
      → find_object k' (put_over fault read k c b).1.objects ≡ some c'
  unfolding put_over
  put_over-keeps k c b (err x) says k' c' h = h
  put_over-keeps k c b (ok none) says k' c' h = elim says [
    | inl (x, q) ↦ absurd (cc (q))
    | inr q ↦ elim (upload-leaves k c b) [
      | inl e ↦ rw e (find_object-new_keeps k c b.objects k' c' (sym (ok-injective _ _ q)) h)
      | inr e ↦ rw e h
    ]
  ]
  put_over-keeps k c b (ok (some d)) says k' c' h = elim (Bool-cases (same_bytes d c)) [
    | inl e ↦ rw (put_over, e) h
    | inr e ↦ rw (put_over, e) h
  ]

  get-of_read :
      (k : String) (b : Bucket) (c : Bytes)
      → _read_optional fault k b ≡ ok (some c)
      → (get fault k b).0 ≡ ok c
  unfolding get
  get-of_read k b c e = rw (get, e) refl

  get_sound :
      (k : String) (b : Bucket) (c : Bytes)
      → IsHonest fault
      → (get fault k b).0 ≡ ok c
      → find_object k b.objects ≡ some c
  unfolding get
  get_sound k b c honest h = elim (read-cases k b honest) [
    | inl (x, e) ↦ absurd (let z = rw (get, e) at h in cc (z))
    | inr e ↦ elim (Option-cases (find_object k b.objects)) [
      | inl d ↦ absurd (let z = rw (get, e, d) at h in cc (z))
      | inr (y, d) ↦ let z = rw (get, e, d) at h in d ∙ ap some (ok-injective _ _ z)
    ]
  ]

  get-keeps : (k : String) (b : Bucket) → (get fault k b).1.objects ≡ b.objects
  unfolding get
  get-keeps k b = elim (Result-cases (_read_optional fault k b)) [
    | inr (x, e) ↦ rw (get, e) refl
    | inl (o, e) ↦ elim (Option-cases o) [
      | inl d ↦ rw (get, e, d) refl
      | inr (c, d) ↦ rw (get, e, d) refl
    ]
  ]

  delete-removes :
      (k : String) (b : Bucket)
      → (delete fault k b).0 ≡ ok tt
      → find_object k (delete fault k b).1.objects ≡ none
  unfolding delete
  delete-removes k b h = elim (Option-cases (fault b.requests)) [
    | inr (f, e) ↦ absurd (let z = rw (delete, e) at h in cc (z))
    | inl e ↦ rw (delete, e) (find_object-remove k b.objects)
  ]

  delete-keeps :
      (k : String) (b : Bucket) (k' : String)
      → k ≢ k'
      → find_object k' (delete fault k b).1.objects ≡ find_object k' b.objects
  unfolding delete
  delete-keeps k b k' ne = elim (Option-cases (fault b.requests)) [
    | inl e ↦ rw (delete, e) (find_object-remove_ne k k' b.objects ne)
    | inr (f, e) ↦ elim (Bool-cases f.carried_out) [
      | inl d ↦ rw (delete, e, d) (find_object-remove_ne k k' b.objects ne)
      | inr d ↦ rw (delete, e, d) refl
    ]
  ]

  -- The S3 backend keeps the contract of a private storage, whatever requests fail and whether the
  -- bucket carried them out or not: `put` that returns has stored a PDF under its key, and no `put`
  -- overwrites or loses an object; `get` gives back exactly what is stored, and answers when its request
  -- does not fail; `delete` that returns has removed the object, and no `delete` changes what is under
  -- another key. The object under a key is the one that the bucket has there. A request is taken to fail
  -- with a code for a missing object only where there is none.
  pub s3_storage-IsPrivateStorage :
      IsHonest fault
      → KeepsContract
          (s3_storage fault)
          (λ k b. find_object k b.objects)
          (λ k k'. k ≡ k')
          (λ b. fault b.requests ≡ none)
  s3_storage-IsPrivateStorage honest = (
    record {
      object_at = λ k b. find_object k b.objects;
      Aliases = λ k k'. k ≡ k';
      Responds = λ b. fault b.requests ≡ none;
      put_stores = λ k c t b h. elim (Result-cases (checked fault c t)) [
        | inr (x, e) ↦ absurd (let z = ap (λ r. r.0) (put-refused k c t b x e) in cc (z, h))
        | inl (x, e) ↦
            let same = put-passed k c t b e in
            (
              ap (λ r. find_object k r.1.objects) same
                  ∙ put_over-stores k c (counted fault b) _ (read-cases k b honest)
                      (ap (λ r. r.0) (sym same) ∙ h),
              checked-pdf c t e,
            )
      ];
      put_keeps = λ k c t b k' c' h. elim (Result-cases (checked fault c t)) [
        | inr (x, e) ↦ ap (λ r. find_object k' r.1.objects) (put-refused k c t b x e) ∙ h
        | inl (x, e) ↦
            ap (λ r. find_object k' r.1.objects) (put-passed k c t b e)
            ∙ put_over-keeps k c (counted fault b) _ (read-cases k b honest) k' c' h
      ];
      get_answers =
          λ k b c responds h. get-of_read k b c (get_object-answers k b responds ∙ ap ok h);
      get_sound = λ k b c h. get_sound k b c honest h;
      get_keeps = λ k b k'. ap (find_object k') (get-keeps k b);
      delete_removes = delete-removes;
      delete_keeps = delete-keeps;
    },
    refl,
    refl,
    refl,
  )
