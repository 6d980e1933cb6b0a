-- ===== src/Tests/MemoryLaws.antt =====
-- The queue in memory does what the controller relies on.
use openfilter_pipelines_con.Base.{
  ◌+◌, ◌≤◌, ◌≡◌, refl, sym, ap, subst, ◌∙◌, Bool, true, false, inl, inr, Option, none, some, List,
  [], ◌∷◌, ◌++◌, String, eq_iff, Dict, lookup, arith, All, Bool-cases, Option-cases,
}
use openfilter_pipelines_con.Go.{ok}
use openfilter_pipelines_con.Queue.{XMessage, value_of}
use openfilter_pipelines_con.Queue.Accounting.{
  one, Loses, Adds, Takes, Loses-refl, Accounting, IsApart,
}
use openfilter_pipelines_con.Tests.Memory.{
  Memory, is_absent, count, remove, settle, add, note, message_of, messages, shown, memory_queue,
  memory_cluster, memory_view,
}

lookup-append :
    (id f : String) (log more : Dict String)
    → lookup id log ≡ some f
    → lookup id (log ++ more) ≡ some f
unfolding lookup
lookup-append id f [] more h = cc
lookup-append id f ((j, g) ∷ log) more h = ground (arith, lookup-append id f log more)

count-remove :
    (f g : String) (owed : List String) → count g owed ≤ count g (remove f owed) + one f g
count-remove f g [] = omega arith
count-remove f g (x ∷ xs) = ground (arith, count-remove f g xs, eq_iff x f)

add-Adds : (id f : String) (w : Memory) → Adds memory_view f w (add id f w)
add-Adds id f w = record {
  added = λ g. ground arith;
  history = λ j g e. lookup-append j g w.log _ e;
}

add-Loses : (id f : String) (w : Memory) → Loses memory_view 0 w (add id f w)
add-Loses id f w = record {
  kept = λ g. ground arith;
  history = λ j g e. lookup-append j g w.log _ e;
}

note-Adds : (f : String) (w : Memory) → Adds memory_view f w (note f w)
note-Adds f w = record { added = λ g. ground arith; history = λ j g e. e }

note-Loses : (f : String) (w : Memory) → Loses memory_view 0 w (note f w)
note-Loses f w = record { kept = λ g. ground arith; history = λ j g e. e }

settle-Takes :
    (id f : String) (w : Memory) → lookup id w.log ≡ some f → Takes memory_view f w (settle id w)
settle-Takes id f w known = elim (Bool-cases (is_absent w id)) [
  | inl absent ↦ rw (absent) record { taken = λ g. omega arith; history = λ j g e. e }
  | inr held ↦
      rw (held, known) record { taken = λ g. count-remove f g w.owed; history = λ j g e. e }
]

settle_absent :
    (id : String) (w : Memory) → is_absent w id ≡ true → Loses memory_view 0 w (settle id w)
settle_absent id w absent = rw (absent) (Loses-refl memory_view w)

settle_gone : (id : String) (w : Memory) → is_absent (settle id w) id ≡ true
settle_gone id w = elim (Bool-cases (is_absent w id)) [
  | inl absent ↦ rw (absent) absent
  | inr held ↦ rw (held) ground (arith, eq_iff id id)
]

value_of-message_of : (id f : String) → value_of (message_of id f) "file" ≡ f
unfolding value_of lookup
value_of-message_of id f = refl

read_file_of :
    (id : String) (w : Memory) (m : XMessage) (ms : List XMessage) (b : Bool) (o : Option String)
    → lookup id w.log ≡ o
    → shown b id o ≡ m ∷ ms
    → lookup id w.log ≡ some (value_of m "file")
read_file_of id w m ms true o e h = cc
read_file_of id w m ms false none e h = cc
read_file_of id w m ms false (some f) e h =
    let heads : message_of id f ≡ m = cc h in
    e ∙ ap some (sym (value_of-message_of id f) ∙ ap (λ x. value_of x "file") heads)

read_gone_of :
    (id : String) (w : Memory) (b : Bool) (o : Option String)
    → is_absent w id ≡ b
    → lookup id w.log ≡ o
    → shown b id o ≡ []
    → is_absent w id ≡ true
read_gone_of id w true o e k h = e
read_gone_of id w false none e k h = rw (k) ground arith
read_gone_of id w false (some f) e k h = cc

ok-injective : {xs ys : List XMessage} → ok xs ≡ ok ys → xs ≡ ys
ok-injective h = cc h

messages_files :
    (ids : List String) (w : Memory)
    → All (λ m. lookup m.id w.log ≡ some (value_of m "file")) (messages ids w)
messages_files [] w = tt
messages_files (id ∷ ids) w = elim (Option-cases (lookup id w.log)) [
  | inl unknown ↦ rw (unknown) (messages_files ids w)
  | inr (f, known) ↦
      rw (known) (known ∙ ap some (sym (value_of-message_of id f)), messages_files ids w)
]

pub memory_queue-laws :
    (stream group dlq : String) → Accounting memory_queue memory_view stream group dlq
memory_queue-laws stream group dlq = record {
  enqueue_keeps = λ run f n w. add-Loses "9-0" f w;
  enqueue_adds = λ run f n w h. add-Adds "9-0" f w;
  dlq_keeps = λ run f n reason w. note-Loses f w;
  dlq_adds = λ run f n reason w h. note-Adds f w;
  pending_keeps = λ consumer n w. Loses-refl memory_view w;
  details_keeps = λ idle n w. Loses-refl memory_view w;
  read_keeps = λ id n w. Loses-refl memory_view w;
  read_file = λ id n w m ms h.
      read_file_of id w m ms (is_absent w id) (lookup id w.log) refl (ok-injective h);
  read_gone =
      λ id n w h. read_gone_of id w (is_absent w id) (lookup id w.log) refl refl (ok-injective h);
  claim_keeps = λ consumer idle ids w. Loses-refl memory_view w;
  claim_files = λ consumer idle ids w ms h.
      subst (All (λ m. lookup m.id w.log ≡ some (value_of m "file"))) (ok-injective h)
        (messages_files ids w);
  ack_takes = λ id f w h. settle-Takes id f w h;
  ack_gone = λ id w h. settle_gone id w;
  ack_keeps = λ id w h. settle_absent id w h;
  delete_keeps = λ id w h. settle_absent id w h;
}

pub memory_cluster-apart : IsApart memory_cluster memory_view
memory_cluster-apart = record {
  list_pods_keeps = λ ns key value w. Loses-refl memory_view w;
  delete_pod_keeps = λ p w. Loses-refl memory_view w;
}
