-- ===== src/Cache/Items.antt =====
-- internal/infrastructure/cache/high_performance_cache.go: a property of every item of the first level,
-- when items are deleted, evicted and looked up.
use home_work_ad_processor_g.Prelude.{
  ℕ, ◌-◌, ◌≡◌, ◌≢◌, sym, ap, ◌∙◌, subst, some, List, [], ◌∷◌, String, str_eq, if◌then◌else◌, All,
  ltb, lookup, delete, arith, eq_iff, Bool-cases, inl, inr, some-injective,
}
use home_work_ad_processor_g.Cache.{CacheItem, evict, delete_all}

module _ (P : String × CacheItem → Type 0) where
  pub All-delete :
      (key : String) (items : List (String × CacheItem))
      → All P items
      → All (λ e. P e × (e.0 ≢ key)) (delete key items)
  unfolding delete
  All-delete key [] h = tt
  All-delete key ((name, item) ∷ items) h = elim (Bool-cases (str_eq name key)) [
    | inl e ↦ rw e (All-delete key items h.1)
    | inr e ↦
        let ne : name ≢ key = ground (arith, eq_iff name key) in
        rw e ((h.0, ne), All-delete key items h.1)
  ]

  pub All-weaken :
      (key : String) (items : List (String × CacheItem)) → All P items → All P (delete key items)
  unfolding delete
  All-weaken key [] h = tt
  All-weaken key ((name, item) ∷ items) h = elim (Bool-cases (str_eq name key)) [
    | inl e ↦ rw e (All-weaken key items h.1)
    | inr e ↦ rw e (h.0, All-weaken key items h.1)
  ]

  pub All-delete_all :
      (keys : List String) (items : List (String × CacheItem))
      → All P items
      → All P (delete_all keys items)
  All-delete_all [] items h = h
  All-delete_all (key ∷ keys) items h =
      All-delete_all keys (delete key items) (All-weaken key items h)

  pub All-evict :
      (keep size : ℕ) (items : List (String × CacheItem))
      → All P items
      → All P (evict keep size items)
  unfolding evict
  All-evict keep size [] h = tt
  All-evict keep size (item ∷ items) h = elim (Bool-cases (ltb keep size)) [
    | inl e ↦ rw e (All-evict keep (size - 1) items h.1)
    | inr e ↦ rw e h.1
  ]

  pub lookup-All :
      (key : String) (items : List (String × CacheItem)) (item : CacheItem)
      → All P items
      → lookup key items ≡ some item
      → P (key, item)
  unfolding lookup
  lookup-All key [] item h e = absurd cc
  lookup-All key ((name, other) ∷ items) item h e = elim (Bool-cases (str_eq name key)) [
    | inl same ↦
        let name_is : name ≡ key = ground (arith, eq_iff name key) in
        let found : other ≡ item =
          some-injective (sym (ap (λ b. if b then some other else lookup key items) same) ∙ e) in
        subst (λ k. P (k, item)) (name_is) (subst (λ i. P (name, i)) found h.0)
    | inr differ ↦
        lookup-All key items item h.1
          (sym (ap (λ b. if b then some other else lookup key items) differ) ∙ e)
  ]
