-- ===== src/Queue/Buckets/Window.antt =====
-- What the ring stands for: how much was recorded in each bucket of time, and which buckets the
-- window still covers.
use native.Mathlib.Decide.{dec_lt, ℕ_discrete}
use native.Mathlib.Nat.{mod-lt}
use http_add_on.Prelude.{
  ℕ, suc, ◌+◌, ◌-◌, ◌*◌, ◌%◌, ◌≤◌, ◌<◌, ◌≡◌, ◌∙◌, sym, ap, ◌⊎◌, ◌≢◌, List, inr, ◌||◌, some, arith,
  ltb, leb, ◌==◌, if◌then◌else◌, length, get_or, set, get_or-replicate, length-replicate,
  length-set,
}
use http_add_on.Prelude.Word.{add64}
use http_add_on.Queue.Time.{second, epoch_seconds, max_duration}
use http_add_on.Queue.Buckets.{RequestsBuckets, bucket_count, clear_buckets, reset, add_value}
use http_add_on.Queue.Buckets.Clear.{
  sum64, sum64-set, sum64-lt, sum64-replicate, mod_ne, slot_self, slot_ne, clear_buckets-Cleared,
}
use http_add_on.Queue.Buckets.Index.{bucket_count-le_iff}

-- The first and the last bucket written since the window was last empty, and the amount recorded
-- in each bucket.
pub record Window : Type 0 where
  pub first : ℕ
  pub last : ℕ
  pub tally : ℕ → ℕ

abbrev pub empty : Window
empty = record { first = 0; last = 0; tally = λ b. 0 }

-- The bucket that counts as the first after a write in bucket `b`, with `n` buckets to a window.
abbrev pub first_after : ℕ → ℕ → Window → ℕ
first_after n b s =
    if leb (s.last + n) b then b else if (s.first == 0) || ltb b s.first then b else s.first

abbrev pub move_to : ℕ → ℕ → Window → Window
move_to n b s = record s { first = first_after n b s; last = if ltb s.last b then b else s.last }

-- An amount for a bucket that the window has left is ignored.
abbrev pub write : ℕ → ℕ → ℕ → Window → Window
write n b v s =
    if leb (b + n) s.last
    then s
    else record (move_to n b s) { tally = λ c. if c == b then add64 (s.tally c) v else s.tally c }

-- `t` holds the window `s`, where buckets are `gs` seconds long and `e` of them precede the epoch.
pub record Represents (gs e w : ℕ) (t : RequestsBuckets) (s : Window) : Type 0 where
  pub granularity : t.granularity ≡ second * gs
  pub window : t.window ≡ w
  pub first_write : t.first_write ≡ second * gs * s.first
  pub last_write : t.last_write ≡ second * gs * s.last
  pub size : length t.buckets ≡ bucket_count w (second * gs)
  pub total : t.window_total ≡ sum64 t.buckets
  pub ordered : s.first ≤ s.last
  pub started : (s.last ≡ 0) ⊎ (e ≤ s.first)
  pub slots :
      (b : ℕ)
      → e ≤ b
      → b ≤ s.last
      → s.last < b + bucket_count w (second * gs)
      → get_or t.buckets ((b - e) % bucket_count w (second * gs)) 0 ≡ s.tally b
  pub future : (b : ℕ) → s.last < b → s.tally b ≡ 0

module _ (gs e w : ℕ) (pos : 0 < gs) (aligned : gs * e ≡ epoch_seconds) (some_window : 0 < w)
    (fits : w ≤ max_duration) where
  abbrev pub n : ℕ
  n = bucket_count w (second * gs)

  pub n_pos : 0 < n
  n_pos = elim (dec_lt 0 n) [
    | yes p ↦ p
    | no p ↦
        absurd
          (omega (arith, (bucket_count-le_iff w (second * gs) 0 (omega arith)).0 (omega arith)))
  ]

  slot_apart :
      (b c last : ℕ)
      → e ≤ b
      → b ≤ last
      → last < b + n
      → e ≤ c
      → c ≤ last
      → last < c + n
      → b ≢ c
      → (b - e) % n ≢ (c - e) % n
  slot_apart b c last b1 b2 b3 c1 c2 c3 h = elim (dec_lt b c) [
    | yes p ↦ mod_ne (b - e) (c - e) n (omega arith) (omega arith)
    | no p ↦ λ q. mod_ne (c - e) (b - e) n (omega arith) (omega arith) (sym q)
  ]

  slots-add_value :
      (bs : List ℕ) (b c v last : ℕ) {old : ℕ}
      → length bs ≡ n
      → e ≤ b
      → b ≤ last
      → last < b + n
      → e ≤ c
      → c ≤ last
      → last < c + n
      → get_or bs ((c - e) % n) 0 ≡ old
      → get_or
          (set bs ((b - e) % length bs) (add64 (get_or bs ((b - e) % length bs) 0) v))
          ((c - e) % n)
          0
        ≡ (if c == b then add64 old v else old)
  slots-add_value bs b c v last size b1 b2 b3 c1 c2 c3 h = elim (ℕ_discrete c b) [
    | yes p ↦
        rw (p, slot_self bs n size n_pos (b - e))
          (ground (
            arith,
            ap (λ (m : ℕ). get_or bs ((b - e) % m) 0) size,
            ap (λ (x : ℕ). get_or bs ((x - e) % n) 0) p,
          ))
    | no p ↦
        slot_ne bs n size n_pos (b - e) (c - e) (add64 (get_or bs ((b - e) % length bs) 0) v)
          (slot_apart b c last b1 b2 b3 c1 c2 c3 (λ q. p (sym q)))
        ∙ ground arith
  ]

  -- The value goes into its bucket, if the window covers that.
  pub add_value-Represents :
      (t : RequestsBuckets) (s : Window) (b v : ℕ)
      → e ≤ b
      → b ≤ s.last
      → s.last < b + n
      → Represents gs e w t s
      → (t' : RequestsBuckets) × (add_value t (b - e) v ≡ some t')
        × Represents gs e w t'
            (record s { tally = λ c. if c == b then add64 (s.tally c) v else s.tally c })
  unfolding add_value
  add_value-Represents t s b v lo hi live r =
      let slot : ℕ = (b - e) % length t.buckets in
      let inside : slot < length t.buckets = mod-lt (b - e) (omega (arith, n_pos, r.size)) in
      (
        record t {
          buckets = set t.buckets slot (add64 (get_or t.buckets slot 0) v);
          window_total = add64 t.window_total v;
        },
        ground (arith, n_pos, r.size),
        record {
          granularity = r.granularity;
          window = r.window;
          first_write = r.first_write;
          last_write = r.last_write;
          ordered = r.ordered;
          started = r.started;
          size = length-set t.buckets slot (add64 (get_or t.buckets slot 0) v) ∙ r.size;
          total = omega (
            arith,
            r.total,
            sum64-set t.buckets slot (add64 (get_or t.buckets slot 0) v) inside,
            sum64-lt (set t.buckets slot (add64 (get_or t.buckets slot 0) v)),
          );
          slots = λ c a1 a2 a3.
              slots-add_value t.buckets b c v s.last r.size lo hi live a1 a2 a3
                (r.slots c a1 a2 a3);
          future = λ c h. ground (arith, r.future c h);
        },
      )

  -- An empty window, at its new bucket: everything is cleared.
  pub reset-Represents :
      (t : RequestsBuckets) (s : Window) (b at : ℕ)
      → e ≤ b
      → s.last + n ≤ b
      → at ≡ second * gs * b
      → t.granularity ≡ second * gs
      → t.window ≡ w
      → length t.buckets ≡ n
      → ((c : ℕ) → s.last < c → s.tally c ≡ 0)
      → Represents gs e w
          (record (reset t at) { last_write = at })
          (record s { first = b; last = b })
  unfolding reset
  reset-Represents t s b at lo far ate g win size fut = record {
    granularity = g;
    window = win;
    first_write = ate;
    last_write = ate;
    size = length-replicate (length t.buckets) 0 ∙ size;
    total = sym (sum64-replicate (length t.buckets));
    ordered = omega arith;
    started = inr lo;
    slots = λ c c1 c2 c3.
        get_or-replicate (length t.buckets) ((c - e) % n) 0 ∙ sym (fut c (omega (arith, n_pos)));
    future = λ c h. fut c (omega arith);
  }

  -- The window moves on to a later bucket that it shares buckets with.
  pub slide-Represents :
      (t : RequestsBuckets) (s : Window) (b at : ℕ)
      → e ≤ s.last
      → s.last < b
      → b < s.last + n
      → at ≡ second * gs * b
      → Represents gs e w t s
      → e ≤ s.first
      → Represents gs e w
          (record (clear_buckets ((b - e) - (s.last - e)) (suc (s.last - e)) t) { last_write = at })
          (record s { last = b })
  slide-Represents t s b at lo hi near ate r st =
      let c = clear_buckets-Cleared n ((b - e) - (s.last - e)) (suc (s.last - e)) t n_pos r.size in
      record {
        granularity = c.granularity ∙ r.granularity;
        window = c.window ∙ r.window;
        first_write = c.first_write ∙ r.first_write;
        last_write = ate;
        size = c.size;
        total = c.total r.total;
        ordered = omega (arith, r.ordered);
        started = inr st;
        slots = λ k k1 k2 k3. elim (dec_lt s.last k) [
          | yes p ↦ c.zeroed (k - e) (omega arith) (omega arith) (omega arith) ∙ sym (r.future k p)
          | no p ↦
              c.kept (k - e) (omega arith) (omega arith) ∙ r.slots k k1 (omega arith) (omega arith)
        ];
        future = λ k h. r.future k (omega arith);
      }
