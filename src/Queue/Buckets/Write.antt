-- ===== src/Queue/Buckets/Write.antt =====
-- The abstract write, by where its bucket lies against the window.
use http_add_on.Prelude.{
  ℕ, ◌+◌, ◌≤◌, ◌<◌, ◌≡◌, ◌≢◌, true, false, arith, ltb, leb, ◌==◌, if◌then◌else◌,
}
use http_add_on.Prelude.Word.{add64}
use http_add_on.Queue.Buckets.Window.{Window, write}

module _ (b v : ℕ) where
  -- The value is added to the bucket.
  abbrev pub written : Window → Window
  written u = record u { tally = λ c. if c == b then add64 (u.tally c) v else u.tally c }

module _ (n b v : ℕ) (s : Window) (some_buckets : 0 < n) where
  pub write-old : b + n ≤ s.last → write n b v s ≡ s
  write-old h = let f : leb (b + n) s.last ≡ true = ground arith in rw f

  pub write-earlier :
      b ≤ s.last
      → s.last < b + n
      → s.first ≢ 0
      → write n b v s ≡ written b v (record s { first = if ltb b s.first then b else s.first })
  write-earlier h k ne =
      let f1 : leb (b + n) s.last ≡ false = ground arith in
      let f2 : leb (s.last + n) b ≡ false = ground (arith, some_buckets) in
      let f3 : (s.first == 0) ≡ false = ground (arith, ne) in
      let f4 : ltb s.last b ≡ false = ground arith in rw (f1, f2, f3, f4)

  pub write-slide :
      s.last < b
      → b < s.last + n
      → s.first ≢ 0
      → s.first ≤ s.last
      → write n b v s ≡ written b v (record s { last = b })
  write-slide h k ne ordered =
      let f1 : leb (b + n) s.last ≡ false = ground arith in
      let f2 : leb (s.last + n) b ≡ false = ground arith in
      let f3 : (s.first == 0) ≡ false = ground (arith, ne) in
      let f4 : ltb s.last b ≡ true = ground arith in
      let f5 : ltb b s.first ≡ false = ground (arith, ordered) in rw (f1, f2, f3, f4, f5)

  pub write-jump : s.last + n ≤ b → write n b v s ≡ written b v (record s { first = b; last = b })
  write-jump h =
      let f1 : leb (b + n) s.last ≡ false = ground (arith, some_buckets) in
      let f2 : leb (s.last + n) b ≡ true = ground arith in
      let f4 : ltb s.last b ≡ true = ground (arith, some_buckets) in rw (f1, f2, f4)
