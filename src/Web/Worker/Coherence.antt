-- ===== src/Web/Worker/Coherence.antt =====
-- With files that do not change, an answer is the same whether it comes from the cache or the disk.
use operating_systems.Common.{
  ℕ, zero, suc, ◌≡◌, refl, sym, ap, subst, ◌∙◌, Option, none, some, List, [], ◌∷◌, ◌++◌, arith, ◌<◌,
  ◌^◌, ◌==◌, length, set, take, take-take, replicate, All, All-append, Option-cases, Bool-cases,
  inl, inr,
}
use operating_systems.Numbers.{pos, to_int, to_int_small}
use operating_systems.Web.Content.{get_content_type}
use operating_systems.CText.{Bytes, str_eq, str_eq_sound}
use operating_systems.Web.Queue.{Request}
use operating_systems.Web.Cache.{CacheEntry, Cache, new_entry, touch, cached_reply, add_into_cache}
use operating_systems.Web.Cache.Arrays.{find, touch_at, least}
use operating_systems.Web.Cache.Entries.{
  Repr, added, looked_up, add_into_cache-Repr, get_cache_index-Repr,
}
use operating_systems.Web.Cache.Lookup.{reply_of, cached_reply-reply_of}
use operating_systems.Web.Worker.{
  read_count, Disk, Load, missing, overrun, unreadable, loaded, read_from_disk, load, answer_load,
  cache_load, serve, result,
}

module _ (disk : Disk) (working_dir : Bytes) where
  -- Every size that `stat` gives is an `int`.
  abbrev pub SizesFit : Type 0
  SizesFit = (file : Bytes) (n : ℕ) → disk.stat_size file ≡ some n → n < 2 ^ 31

  -- The entry holds what the disk has for its request.
  abbrev pub Fresh : CacheEntry → Type 0
  Fresh e = load disk working_dir e.request ≡ loaded (take e.len e.content) e.len

  -- A valid cache whose entries are all those of the disk.
  pub record Coherent (c : Cache) : Type 0 where
    pub list : List CacheEntry
    pub valid : Repr c list
    pub fresh : All Fresh list

  All-touch_at : (es : List CacheEntry) (i : ℕ) → All Fresh es → All Fresh (touch_at es i)
  unfolding touch_at touch
  All-touch_at [] i h = h
  All-touch_at (e ∷ es) zero h = h
  All-touch_at (e ∷ es) (suc i) h = (h.0, All-touch_at es i h.1)

  All-set :
      (es : List CacheEntry) (i : ℕ) (e : CacheEntry)
      → All Fresh es
      → Fresh e
      → All Fresh (set es i e)
  All-set [] i e h k = h
  All-set (x ∷ es) zero e h k = (k, h.1)
  All-set (x ∷ es) (suc i) e h k = (h.0, All-set es i e h.1 k)

  All-added :
      (size : ℕ) (es : List CacheEntry) (e : CacheEntry)
      → All Fresh es
      → Fresh e
      → All Fresh (added size es e)
  All-added size es e h k = elim (Bool-cases (length es == size)) [
    | inl t ↦ rw t (All-set es (least es) e h k)
    | inr t ↦ rw t (All-append Fresh es (e ∷ []) h (k, tt))
  ]

  read_from_disk-take :
      (file buf : Bytes) (size n : ℕ)
      → read_from_disk disk file size ≡ loaded buf n
      → take n buf ≡ buf
  unfolding read_from_disk
  read_from_disk-take file buf size n h =
      elim (Option-cases (disk.read_file file (read_count size))) [
        | inl e ↦ absurd (ground arith)
        | inr (bytes, e) ↦
            let same : loaded (take size (bytes ++ replicate size 0)) size ≡ loaded buf n =
              ground arith in
            cc (same, take-take size (bytes ++ replicate size 0))
      ]

  -- What was read fills the size.
  load-take :
      (request buf : Bytes) (n : ℕ)
      → load disk working_dir request ≡ loaded buf n
      → take n buf ≡ buf
  unfolding load
  load-take request buf n h = elim (Option-cases (disk.stat_size (working_dir ++ request))) [
    | inl e ↦ absurd (ground arith)
    | inr (size, e) ↦ read_from_disk-take (working_dir ++ request) buf size n (rw (e, load) at h)
  ]

  read_from_disk-size :
      (file buf : Bytes) (size n : ℕ) → read_from_disk disk file size ≡ loaded buf n → n ≡ size
  unfolding read_from_disk
  read_from_disk-size file buf size n h =
      elim (Option-cases (disk.read_file file (read_count size))) [
        | inl e ↦ absurd (ground arith)
        | inr (bytes, e) ↦
            let same : loaded (take size (bytes ++ replicate size 0)) size ≡ loaded buf n =
              ground arith in
            cc
      ]

  -- What was loaded has the size that `stat` gave.
  pub load-stat_size :
      (request buf : Bytes) (n : ℕ)
      → load disk working_dir request ≡ loaded buf n
      → disk.stat_size (working_dir ++ request) ≡ some n
  unfolding load
  load-stat_size request buf n h = elim (Option-cases (disk.stat_size (working_dir ++ request))) [
    | inl e ↦ absurd (ground arith)
    | inr (size, e) ↦
        e
        ∙ ap some
            (sym (read_from_disk-size (working_dir ++ request) buf size n (rw (e, load) at h)))
  ]

  load-to_int :
      (request buf : Bytes) (n : ℕ)
      → SizesFit
      → load disk working_dir request ≡ loaded buf n
      → to_int n ≡ pos n
  load-to_int request buf n fit h =
      to_int_small n (fit (working_dir ++ request) n (load-stat_size request buf n h))

  -- What the disk calls for where it has the file.
  pub answer_load-loaded :
      (request buf : Bytes) (n : ℕ)
      → SizesFit
      → load disk working_dir request ≡ loaded buf n
      → answer_load request (loaded buf n) ≡ result (get_content_type request) buf n
  unfolding answer_load
  answer_load-loaded request buf n fit h = rw (load-to_int request buf n fit h, answer_load) refl

  reply_of-Fresh :
      (es : List CacheEntry) (key buf : Bytes) (n : ℕ)
      → All Fresh es
      → reply_of es key ≡ some (buf, n)
      → load disk working_dir key ≡ loaded buf n
  unfolding reply_of
  reply_of-Fresh [] key buf n h e = absurd (cc)
  reply_of-Fresh (x ∷ es) key buf n h e = elim (Bool-cases (str_eq x.request key)) [
    | inl t ↦
        let same : ◌≡◌ {A = Option (Bytes × ℕ)} (some (take x.len x.content, x.len))
            (some (buf, n)) =
          rw t at e in
        subst (λ k. load disk working_dir k ≡ loaded buf n) (str_eq_sound x.request key t)
          (cc (h.0, same))
    | inr t ↦ reply_of-Fresh es key buf n h.1 (rw t at e)
  ]

  looked_up-Fresh :
      (es : List CacheEntry) (o : Option ℕ) → All Fresh es → All Fresh (looked_up es o)
  looked_up-Fresh es none h = h
  looked_up-Fresh es (some i) h = All-touch_at es i h

  -- A lookup leaves the cache coherent, and a hit sends what the disk has.
  pub cached_reply-Coherent :
      (c : Cache) (request : Bytes)
      → Coherent c
      → Coherent (cached_reply c request).1
        × ((buf : Bytes) (n : ℕ)
            → (cached_reply c request).0 ≡ some (buf, n)
            → load disk working_dir request ≡ loaded buf n)
  unfolding cached_reply
  cached_reply-Coherent c request v = (
    record {
      list = looked_up v.list (find v.list request 0);
      valid = (get_cache_index-Repr v.valid request).1;
      fresh = looked_up-Fresh v.list (find v.list request 0) v.fresh;
    },
    λ buf n e.
        reply_of-Fresh v.list request buf n v.fresh
          (sym (cached_reply-reply_of c v.list request v.valid) ∙ e),
  )

  -- So does the addition of what was read.
  pub add_into_cache-Coherent :
      (c : Cache) (request buf : Bytes) (n : ℕ)
      → Coherent c
      → load disk working_dir request ≡ loaded buf n
      → Coherent (add_into_cache c request buf n)
  add_into_cache-Coherent c request buf n v h = record {
    list = added c.cache_size v.list (new_entry request buf n);
    valid = add_into_cache-Repr v.valid request buf n;
    fresh =
        All-added c.cache_size v.list (new_entry request buf n) v.fresh
          (unfold new_entry in rw (take-take n buf, load-take request buf n h) h);
  }

  pub cache_load-Coherent :
      (c : Cache) (request : Bytes) (l : Load)
      → SizesFit
      → load disk working_dir request ≡ l
      → Coherent c
      → Coherent (cache_load c request l)
  unfolding cache_load
  cache_load-Coherent c request missing fit h v = v
  cache_load-Coherent c request overrun fit h v = v
  cache_load-Coherent c request (unreadable text) fit h v = v
  cache_load-Coherent c request (loaded buf n) fit h v =
      rw (load-to_int request buf n fit h, cache_load) (add_into_cache-Coherent c request buf n v h)

  -- If every size that `stat` gives is below 2^31: the service of a request leaves a coherent cache
  -- coherent, and answers with the file as the disk has it, whether the request hits or misses.
  pub serve-load :
      (id req_num duration : ℕ) (c : Cache) (r : Request)
      → SizesFit
      → Coherent c
      → ((serve disk working_dir id req_num duration c r).answer
          ≡ answer_load r.request (load disk working_dir r.request))
        × Coherent (serve disk working_dir id req_num duration c r).cache
  unfolding serve
  serve-load id req_num duration c r fit v = elim (Option-cases (cached_reply c r.request).0) [
    | inl e ↦
        rw (e, serve)
          (refl, cache_load-Coherent _ r.request _ fit refl (cached_reply-Coherent c r.request v).0)
    | inr ((buf, n), e) ↦
        rw (e, serve)
          (
            sym (
                ap (answer_load r.request) ((cached_reply-Coherent c r.request v).1 buf n e)
                ∙ answer_load-loaded r.request buf n fit
                    ((cached_reply-Coherent c r.request v).1 buf n e)),
            (cached_reply-Coherent c r.request v).0,
          )
  ]
