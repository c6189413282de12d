-- ===== src/Host/Pooled.antt =====
-- The pool of cached instances: what a publish leaves in it.
use dots_rust.Prelude.{
  ◌≡◌, refl, sym, ap, ◌∙◌, String, Bool, true, false, ◌&&◌, Option, none, some, List, [], ◌∷◌,
  if◌then◌else◌, arith, Bool-cases, Option-cases, inl, inr, unwrap_or, str_eq, str_eq_iff,
}
use dots_rust.Prelude.Assoc.{
  lookup, string_key, Every, IsMap, lookup-put, lookup-erase, erase-IsMap, put-IsMap, erase-Every,
  put-Every,
}
use dots_rust.Container.{is_removal}
use dots_rust.Container.Map.{Bytes, find, insert, remove, same_key, find-insert, find-remove}
use dots_rust.Host.Writer.{is_empty}
use dots_rust.Host.Types.{Env, CachedEntry, Pool}
use dots_rust.Host.Publish.{Incoming, cached, pooled_entry, put_map, remove_from}

if_same {ℓ} : {A : Type ℓ} (b : Bool) (x y : A) → y ≡ x → (if b then x else y) ≡ x
if_same true x y h = refl
if_same false x y h = h

module _ (env : Env) where
  -- The instance of a type under a key.
  abbrev pub stored : String → Bytes → Pool env → Option (CachedEntry env)
  stored name key pool = find key (unwrap_or (lookup name pool) [])

  -- Each type stands once, with an instance.
  pub record IsPooled (pool : Pool env) : Type 0 where
    pub pool_map : IsMap pool
    pub used : Every (λ name m. is_empty m ≡ false) pool

  insert-used :
      (k : Bytes) (e : CachedEntry env) (m : List (Bytes × CachedEntry env))
      → is_empty (insert k e m) ≡ false
  unfolding insert
  insert-used k e [] = refl
  insert-used k e (entry ∷ m) = ground arith

  put_map-IsPooled :
      (name : String) (m : List (Bytes × CachedEntry env)) (pool : Pool env)
      → IsPooled pool
      → IsPooled (put_map env name m pool)
  put_map-IsPooled name m pool h = elim (Bool-cases (is_empty m)) [
    | inl empty ↦ rw empty (record {
      pool_map = erase-IsMap name pool h.pool_map;
      used = erase-Every (λ name m. is_empty m ≡ false) name pool h.used;
    })
    | inr used ↦ rw used (record {
      pool_map = put-IsMap name m pool h.pool_map;
      used = put-Every (λ name m. is_empty m ≡ false) name m pool used h.used;
    })
  ]

  pub cached-IsPooled :
      (name : String) (p : Incoming env) (pool : Pool env)
      → IsPooled pool
      → IsPooled (cached env name p pool)
  unfolding cached
  cached-IsPooled name p pool h = elim (Bool-cases (is_removal p.header)) [
    | inl gone ↦
        rw (gone, cached)
          (elim (Option-cases (lookup name pool)) [
            | inl e ↦ rw e h
            | inr (m, e) ↦ rw e (put_map-IsPooled name (remove p.key m) pool h)
          ])
    | inr kept ↦
        let m : List (Bytes × CachedEntry env) = unwrap_or (lookup name pool) [] in
        let e : CachedEntry env = pooled_entry env p.header p.payload (find p.key m) in
        rw (kept, cached)
          (record {
            pool_map = put-IsMap name (insert p.key e m) pool h.pool_map;
            used =
                put-Every (λ name m. is_empty m ≡ false) name (insert p.key e m) pool
                  (insert-used p.key e m) h.used;
          })
  ]

  find-is_empty :
      (k : Bytes) (m : List (Bytes × CachedEntry env)) → is_empty m ≡ true → none ≡ find k m
  unfolding find
  find-is_empty k [] h = refl
  find-is_empty k (e ∷ m) h = cc

  stored-put_map :
      (name n : String) (k : Bytes) (m : List (Bytes × CachedEntry env)) (pool : Pool env)
      → stored n k (put_map env name m pool) ≡ (if str_eq name n then find k m else stored n k pool)
  unfolding find
  stored-put_map name n k m pool = elim (Bool-cases (is_empty m)) [
    | inl empty ↦ elim (Bool-cases (str_eq name n)) [
      | inl at ↦ rw (empty, lookup-erase name n pool, at) (find-is_empty k m empty)
      | inr other ↦ rw (empty, lookup-erase name n pool, other) refl
    ]
    | inr used ↦ elim (Bool-cases (str_eq name n)) [
      | inl at ↦ rw (used, lookup-put name n m pool, at) refl
      | inr other ↦ rw (used, lookup-put name n m pool, other) refl
    ]
  ]

  -- What a publish of a cached type leaves under a type and a key.
  abbrev pub expected : String → Incoming env → Pool env → String → Bytes → Option (CachedEntry env)
  expected name p pool n k =
      if str_eq name n && same_key p.key k
      then (if is_removal p.header
          then none
          else some (pooled_entry env p.header p.payload (stored name p.key pool)))
      else stored n k pool

  find-nil : (k : Bytes) → find {V = CachedEntry env} k [] ≡ none
  unfolding find
  find-nil k = refl

  at_name :
      (name n : String) (pool : Pool env) → str_eq name n ≡ true → lookup name pool ≡ lookup n pool
  at_name name n pool at = ap (λ s. lookup s pool) ((str_eq_iff name n).0 at)

  removed-stored :
      (name n : String) (key k : Bytes) (pool : Pool env)
      → stored n k (remove_from env name key (lookup name pool) pool)
        ≡ (if str_eq name n && same_key key k then none else stored n k pool)
  removed-stored name n key k pool = elim (Option-cases (lookup name pool)) [
    | inl e ↦ elim (Bool-cases (str_eq name n)) [
      | inl at ↦
          let gone : stored n k pool ≡ none =
            ap (λ m. find k (unwrap_or m [])) (sym (at_name name n pool at) ∙ e) ∙ find-nil k in
          rw (e, at) (gone ∙ sym (if_same (same_key key k) none (stored n k pool) gone))
      | inr other ↦ rw (e, other) refl
    ]
    | inr (m, e) ↦ rw e (
        stored-put_map name n k (remove key m) pool ∙ elim (Bool-cases (str_eq name n)) [
          | inl at ↦
              let there : stored n k pool ≡ find k m =
                ap (λ m. find k (unwrap_or m [])) (sym (at_name name n pool at) ∙ e) in
              rw (at, there) (find-remove key k m)
          | inr other ↦ rw other refl
        ])
  ]

  -- After a publish of a cached type, the instance under its key is the merge of the payload into the
  -- instance that was there, a new instance, or, for a removal, none; every other instance of every
  -- type is left as it was.
  pub cached-stored :
      (name n : String) (p : Incoming env) (k : Bytes) (pool : Pool env)
      → stored n k (cached env name p pool) ≡ expected name p pool n k
  unfolding cached
  cached-stored name n p k pool = elim (Bool-cases (is_removal p.header)) [
    | inl gone ↦ rw (gone, cached) (removed-stored name n p.key k pool)
    | inr kept ↦
        let m : List (Bytes × CachedEntry env) = unwrap_or (lookup name pool) [] in
        let e : CachedEntry env = pooled_entry env p.header p.payload (find p.key m) in
        elim (Bool-cases (str_eq name n)) [
          | inl at ↦
              rw (kept, cached)
                (ap (λ o. find k (unwrap_or o [])) (lookup-put name n (insert p.key e m) pool)
                  ∙ rw at (
                      find-insert p.key k e m
                      ∙ ap (λ o. if same_key p.key k then some e else find k (unwrap_or o []))
                          (at_name name n pool at)))
          | inr other ↦
              rw (kept, cached)
                (ap (λ o. find k (unwrap_or o [])) (lookup-put name n (insert p.key e m) pool)
                  ∙ rw other refl)
        ]
  ]
