-- ===== src/Web/Worker/Log.antt =====
-- `log_message` of `worker` in `Project 3 - Multithreaded Web Server/server.c`, an array of 2048 bytes.
use operating_systems.Common.{
  ℕ, ◌+◌, ◌^◌, ◌%◌, ◌≤◌, ◌<◌, ◌≡◌, refl, Bool, true, false, some, List, [], ◌∷◌, ◌++◌, length,
  length-append, arith, Option-cases, inl, inr, if◌then◌else◌,
}
use operating_systems.CText.{Bytes, codes}
use operating_systems.Numbers.{to_int, decimal, format_int, length-decimal, length-format_int}
use operating_systems.Web.Queue.{Request}
use operating_systems.Web.Cache.{Cache, cached_reply}
use operating_systems.Web.Worker.{
  read_count, loaded, read_into, Disk, read_from_disk, load, answer_load, log_field, log_message,
  log_outcome, serve,
}
use operating_systems.Web.Worker.Coherence.{Coherent, cached_reply-Coherent, load-stat_size}

length-log_field : (text : Bytes) → length (log_field text) ≡ length text + 2
unfolding log_field
length-log_field text = omega (arith, length-append text (codes "]"))

hit_or_miss : (hit : Bool) → length (if hit then codes "HIT" else codes "MISS") ≤ 4
hit_or_miss true = omega arith
hit_or_miss false = omega arith

-- The line as its fields.
abbrev line : List Bytes → Bytes
line [] = 10 ∷ []
line (text ∷ texts) = log_field text ++ line texts

abbrev line_length : List Bytes → ℕ
line_length [] = 1
line_length (text ∷ texts) = length text + 2 + line_length texts

length-line : (texts : List Bytes) → length (line texts) ≡ line_length texts
length-line [] = refl
length-line (text ∷ texts) =
    omega
      (arith, length-append (log_field text) (line texts), length-log_field text, length-line texts)

-- The line has at most 78 bytes besides the request and the outcome.
length-log_message :
    (id req_num : ℕ) (r : Request) (outcome : Bytes) (duration : ℕ) (hit : Bool)
    → length (log_message id req_num r outcome duration hit)
      ≤ length r.request + length outcome + 78
unfolding log_message
length-log_message id req_num r outcome duration hit =
    let time = decimal (duration % 2 ^ 64) in
    let texts : List Bytes =
      format_int id
      ∷ format_int req_num
      ∷ format_int r.fd
      ∷ r.request
      ∷ outcome
      ∷ (time ++ codes "micros")
      ∷ (if hit then codes "HIT" else codes "MISS")
      ∷ [] in
    omega (
      arith,
      length-line texts,
      length-format_int id,
      length-format_int req_num,
      length-format_int r.fd,
      length-append time (codes "micros"),
      length-decimal (duration % 2 ^ 64) 19 (omega arith),
      hit_or_miss hit,
    )

-- The line that `serve` logs has the outcome of its answer.
serve-log :
    (disk : Disk) (working_dir : Bytes) (id req_num duration : ℕ) (c : Cache) (r : Request)
    → (hit : Bool) × ((serve disk working_dir id req_num duration c r).log
        ≡ log_message id req_num r
            (log_outcome (serve disk working_dir id req_num duration c r).answer)
            duration
            hit)
unfolding serve
serve-log disk working_dir id req_num duration c r =
    elim (Option-cases (cached_reply c r.request).0) [
      | inl e ↦ (false, rw (e, serve) refl)
      | inr (reply, e) ↦ (true, rw (e, serve) refl)
    ]

module _ (disk : Disk) (working_dir : Bytes)
    (sizes : (f : Bytes) (n : ℕ) → disk.stat_size f ≡ some n → n < 2 ^ 64) where
  loaded_outcome :
      (request buf : Bytes) (n : ℕ)
      → n < 2 ^ 64
      → length (log_outcome (answer_load request (loaded buf n))) ≤ 43
  unfolding log_outcome answer_load to_int
  loaded_outcome request buf n h = ground (arith, length-decimal n 19 (omega (arith, h)))

  read_outcome :
      (request file : Bytes) (n : ℕ)
      → n < 2 ^ 64
      → length (log_outcome (answer_load request (read_from_disk disk file n))) ≤ 43
  unfolding log_outcome answer_load read_from_disk
  read_outcome request file n h = elim (Option-cases (disk.read_file file (read_count n))) [
    | inl e ↦ ground arith
    | inr (bytes, e) ↦ rw (e, read_from_disk) (loaded_outcome request (read_into n bytes) n h)
  ]

  -- The outcome is the size of a file, or one of the two error texts.
  length-log_outcome :
      (request : Bytes)
      → length (log_outcome (answer_load request (load disk working_dir request))) ≤ 43
  unfolding log_outcome answer_load load
  length-log_outcome request = elim (Option-cases (disk.stat_size (working_dir ++ request))) [
    | inl e ↦ rw (e, load) (omega arith)
    | inr (n, e) ↦
        rw (e, load)
          (read_outcome request (working_dir ++ request) n (sizes (working_dir ++ request) n e))
  ]

  serve_outcome :
      (id req_num duration : ℕ) (c : Cache) (r : Request)
      → Coherent disk working_dir c
      → length (log_outcome (serve disk working_dir id req_num duration c r).answer) ≤ 43
  unfolding serve log_outcome
  serve_outcome id req_num duration c r v = elim (Option-cases (cached_reply c r.request).0) [
    | inl e ↦ rw (e, serve) (length-log_outcome r.request)
    | inr ((buf, n), e) ↦
        let from_disk = (cached_reply-Coherent disk working_dir c r.request v).1 buf n e in
        let fits =
          sizes (working_dir ++ r.request) n
            (load-stat_size disk working_dir r.request buf n from_disk) in
        rw (e, serve) (omega (arith, length-decimal n 19 (omega (arith, fits))))
  ]

  -- From a cache that agrees with the disk, a request of at most 1023 bytes is logged in less than
  -- the 2048 bytes of `log_message`, so the `sprintf` stays inside it, if every size that `stat`
  -- gives is below 2^64.
  pub serve-log_fits :
      (id req_num duration : ℕ) (c : Cache) (r : Request)
      → Coherent disk working_dir c
      → length r.request ≤ 1023
      → length (serve disk working_dir id req_num duration c r).log < 2048
  serve-log_fits id req_num duration c r v h =
      let s = serve disk working_dir id req_num duration c r in
      let (hit, e) = serve-log disk working_dir id req_num duration c r in
      let outcome : length (log_outcome s.answer) ≤ 43 = serve_outcome id req_num duration c r v in
      rw e (
        omega
          (arith, h, outcome, length-log_message id req_num r (log_outcome s.answer) duration hit))
