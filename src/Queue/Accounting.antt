-- ===== src/Queue/Accounting.antt =====
-- What the controller relies on of the queue server, as an account of the copies of each file that
-- are still to be worked on or kept in the dead letter queue. The laws are bounds: a failed request
-- may have had its effect, and other clients may add messages at any time.
use openfilter_pipelines_con.Base.{
  ℕ, ℤ, ◌+◌, ◌≤◌, ◌≡◌, Bool, true, List, [], ◌∷◌, Option, some, String, arith, All, str_eq,
  if◌then◌else◌,
}
use openfilter_pipelines_con.Go.{ok, is_ok}
use openfilter_pipelines_con.Queue.{XMessage, value_of, ValkeyClientInterface}
use openfilter_pipelines_con.Kube.{Pod, Cluster}

-- `copies w f` counts the live copies of the file `f`; `file_of w id` is the file of the message
-- that was once added under the ID; a message that is `gone` is no copy (acknowledged or deleted).
pub record View (W : Type 0) : Type 0 where
  pub copies : W → String → ℕ
  pub file_of : W → String → Option String
  pub is_gone : W → String → Bool

-- One for the file itself, none for another.
abbrev pub one : String → String → ℕ
one f g = if str_eq f g then 1 else 0

module _ {W : Type 0} (v : View W) where
  -- No ID gets another file.
  abbrev pub Remembers : W → W → Type 0
  Remembers w u = (id f : String) → v.file_of w id ≡ some f → v.file_of u id ≡ some f

  -- From `w` to `u` at most `n` copies of each file are lost.
  pub record Loses (n : ℕ) (w u : W) : Type 0 where
    pub kept : (f : String) → v.copies w f ≤ v.copies u f + n
    pub history : Remembers w u

  -- One more copy of the file `f`, and no copy lost.
  pub record Adds (f : String) (w u : W) : Type 0 where
    pub added : (g : String) → v.copies w g + one f g ≤ v.copies u g
    pub history : Remembers w u

  -- At most one copy lost, of the file `f` only.
  pub record Takes (f : String) (w u : W) : Type 0 where
    pub taken : (g : String) → v.copies w g ≤ v.copies u g + one f g
    pub history : Remembers w u

  pub Loses-refl : (w : W) → Loses 0 w w
  Loses-refl w = record { kept = λ f. omega arith; history = λ id f e. e }

  pub Loses-trans : (m n : ℕ) (w u x : W) → Loses m w u → Loses n u x → Loses (m + n) w x
  Loses-trans m n w u x a b = record {
    kept = λ f. omega (arith, a.kept f, b.kept f);
    history = λ id f e. b.history id f (a.history id f e);
  }

  pub Loses-after : (n : ℕ) (w u x : W) → Loses 0 w u → Loses n u x → Loses n w x
  Loses-after n w u x a b = record {
    kept = λ f. omega (arith, a.kept f, b.kept f);
    history = λ id f e. b.history id f (a.history id f e);
  }

  pub Loses-mono : (m n : ℕ) (w u : W) → m ≤ n → Loses m w u → Loses n w u
  Loses-mono m n w u h a = record { kept = λ f. omega (arith, a.kept f); history = a.history }

  -- A copy that is taken behind one that was added is no loss.
  pub Adds-Takes : (f : String) (w u x : W) → Adds f w u → Takes f u x → Loses 0 w x
  Adds-Takes f w u x a t = record {
    kept = λ g. omega (arith, a.added g, t.taken g);
    history = λ id g e. t.history id g (a.history id g e);
  }

  pub Takes-after : (f : String) (w u x : W) → Takes f w u → Loses 0 u x → Takes f w x
  Takes-after f w u x t a = record {
    taken = λ g. omega (arith, t.taken g, a.kept g);
    history = λ id g e. a.history id g (t.history id g e);
  }

  pub Takes-Loses : (f : String) (w u : W) → Takes f w u → Loses 1 w u
  Takes-Loses f w u t = record { kept = λ g. ground (arith, t.taken g); history = t.history }

-- The documented behaviour of the stream commands on the keys of one instance.
pub record Accounting {W : Type 0} (q : ValkeyClientInterface W) (v : View W)
    (stream group dlq : String) : Type 0 where
  pub enqueue_keeps :
      (run f : String) (n : ℤ) (w : W)
      → Loses v 0 w (q.enqueue_file_with_attempts stream run f n w).1
  pub enqueue_adds :
      (run f : String) (n : ℤ) (w : W)
      → is_ok (q.enqueue_file_with_attempts stream run f n w).0 ≡ true
      → Adds v f w (q.enqueue_file_with_attempts stream run f n w).1
  pub dlq_keeps :
      (run f : String) (n : ℤ) (reason : String) (w : W)
      → Loses v 0 w (q.add_to_dlq dlq run f n reason w).1
  pub dlq_adds :
      (run f : String) (n : ℤ) (reason : String) (w : W)
      → is_ok (q.add_to_dlq dlq run f n reason w).0 ≡ true
      → Adds v f w (q.add_to_dlq dlq run f n reason w).1
  pub pending_keeps :
      (consumer : String) (n : ℤ) (w : W)
      → Loses v 0 w (q.get_pending_for_consumer stream group consumer n w).1
  pub details_keeps :
      (idle n : ℤ) (w : W) → Loses v 0 w (q.get_pending_entry_details stream group idle n w).1
  pub read_keeps : (id : String) (n : ℤ) (w : W) → Loses v 0 w (q.read_range stream id id n w).1
  -- XRANGE of one ID gives the message as it was added, or nothing if it is deleted.
  pub read_file :
      (id : String) (n : ℤ) (w : W) (m : XMessage) (ms : List XMessage)
      → (q.read_range stream id id n w).0 ≡ ok (m ∷ ms)
      → v.file_of (q.read_range stream id id n w).1 id ≡ some (value_of m "file")
  pub read_gone :
      (id : String) (n : ℤ) (w : W)
      → (q.read_range stream id id n w).0 ≡ ok []
      → v.is_gone (q.read_range stream id id n w).1 id ≡ true
  pub claim_keeps :
      (consumer : String) (idle : ℤ) (ids : List String) (w : W)
      → Loses v 0 w (q.claim_messages stream group consumer idle ids w).1
  pub claim_files :
      (consumer : String) (idle : ℤ) (ids : List String) (w : W) (ms : List XMessage)
      → (q.claim_messages stream group consumer idle ids w).0 ≡ ok ms
      → All
          (λ m.
            v.file_of (q.claim_messages stream group consumer idle ids w).1 m.id
            ≡ some (value_of m "file"))
          ms
  -- XACK retires the one message; so does XDEL behind it, with nothing more to lose.
  pub ack_takes :
      (id f : String) (w : W)
      → v.file_of w id ≡ some f
      → Takes v f w (q.ack_message stream group id w).1
  pub ack_gone :
      (id : String) (w : W)
      → is_ok (q.ack_message stream group id w).0 ≡ true
      → v.is_gone (q.ack_message stream group id w).1 id ≡ true
  pub ack_keeps :
      (id : String) (w : W)
      → v.is_gone w id ≡ true
      → Loses v 0 w (q.ack_message stream group id w).1
  pub delete_keeps :
      (id : String) (w : W)
      → v.is_gone w id ≡ true
      → Loses v 0 w (q.delete_messages stream (id ∷ []) w).1

-- Requests about pods do not touch the queue.
pub record IsApart {W : Type 0} (k : Cluster W) (v : View W) : Type 0 where
  pub list_pods_keeps : (ns key value : String) (w : W) → Loses v 0 w (k.list_pods ns key value w).1
  pub delete_pod_keeps : (pod : Pod) (w : W) → Loses v 0 w (k.delete_pod pod w).1
