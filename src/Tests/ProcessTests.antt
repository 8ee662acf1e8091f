-- ===== src/Tests/ProcessTests.antt =====
-- Keys typed into a recording host, and a screen that is polled.
use termiclaw.Prelude.{
  ℕ, ◌+◌, ◌-◌, ◌<◌, arith, ltb→lt, pos, Text, codes, strip, rstrip, List, [], ◌∷◌, ◌++◌, some, ◌≡◌,
  refl, true,
}
use termiclaw.Float.{finite, ltb_float, add_float}
use termiclaw.Errors.{returns}
use termiclaw.Container.{has_surrogate, utf8_len, split_keys}
use termiclaw.Container.Process.{
  Host, ran, key_args, send_keys, special_key, capture_visible, send_and_wait_idle, marked,
}
use termiclaw.Container.Process.Typed.{Delivers}
use termiclaw.Container.Process.Wait.{send_and_wait_idle-echo}

-- Every process succeeds, and its call is written down.
abbrev recorder : Host (List (List Text))
recorder = record {
  spawn = λ args w. (ran (pos 0) (codes "$ ls; echo 'TERMICLAW_DONE_ab'"), w ++ args ∷ []);
  failure = λ args o. codes "failed";
  uuid = λ w. (codes "ab", w);
  monotonic = λ w. (finite (pos 0), w);
  sleep = λ t w. w;
  image_tag = codes "termiclaw-base:0";
  dockerfile = codes "Dockerfile";
  dockerfile_dir = codes ".";
}

abbrev records : Delivers recorder
records = record {
  calls = λ w. w;
  succeeds = λ args w. (codes "$ ls; echo 'TERMICLAW_DONE_ab'", refl);
  called = λ args w. refl;
}

abbrev typed : List (List Text)
typed =
    key_args recorder (codes "c") (codes "s") (marked (codes "ls") (codes "TERMICLAW_DONE_ab"))
    ∷ key_args recorder (codes "c") (codes "s") (codes "Enter")
    ∷ []

send_and_wait_idle-echo_example :
    send_and_wait_idle recorder 1
      (codes "c")
      (codes "s")
      (codes "ls")
      (finite (pos 9))
      (finite (pos 1))
      100
      []
    ≡ some (returns true, (capture_visible recorder (codes "c") (codes "s") typed).1)
unfolding send_keys special_key split_keys has_surrogate utf8_len capture_visible strip rstrip
    ltb_float add_float
send_and_wait_idle-echo_example =
    send_and_wait_idle-echo recorder (codes "c") (codes "s") (codes "ls") (finite (pos 9))
      (finite (pos 1)) 0 100 [] typed (codes "$ ") [] refl refl refl refl

-- A clock that counts down: each sleep takes one.
abbrev pub clock : Host ℕ
clock = record {
  spawn = λ args w. (ran (pos 0) [], w);
  failure = λ args o. codes "failed";
  uuid = λ w. (codes "ab", w);
  monotonic = λ w. (finite (pos (3 - w)), w);
  sleep = λ t w. w - 1;
  image_tag = codes "termiclaw-base:0";
  dockerfile = codes "Dockerfile";
  dockerfile_dir = codes ".";
}

counts_down : (w : ℕ) → ltb_float (finite (pos (3 - w))) (finite (pos 3)) ≡ true → w - 1 < w
unfolding ltb_float
counts_down w early = let earlier = ltb→lt (3 - w + 0) (3 + 0) early in omega arith
