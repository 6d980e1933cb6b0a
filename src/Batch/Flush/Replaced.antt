-- ===== src/Batch/Flush/Replaced.antt =====
-- What the flush reads of the dead letter queue, and what it replaces there (`flushOutstandingWork`,
-- internal/controller/pipelineinstance_controller_batch.go).
use openfilter_pipelines_con.Base.{
  ◌≡◌, ◌↔◌, ◌⊎◌, refl, sym, ap, subst, ◌∙◌, inl, inr, List, [], ◌∷◌, ◌++◌, String, ℤ, pos, Dict,
  lookup, or_else, Any,
}
use openfilter_pipelines_con.Go.{Result-cases}
use openfilter_pipelines_con.Api.{PipelineInstance, get_queue_dlq}
use openfilter_pipelines_con.Queue.{ValkeyClientInterface}
use openfilter_pipelines_con.Batch.Common.{max_attempts}
use openfilter_pipelines_con.Batch.Flush.{
  nothing_known, final_attempts, bury, replace_entries, bury_all, read_existing,
}
use openfilter_pipelines_con.Batch.Flush.Noted.{IsNoted, none-IsNoted}
use openfilter_pipelines_con.Batch.Flush.Merged.{HasKey, IsCounted, note_existing-IsNoted}
use openfilter_pipelines_con.Batch.Flush.Shown.{View, shown, IsShowing, Any-append}

module _ {W : Type 0} (q : ValkeyClientInterface W) (pi : PipelineInstance) (v : View W)
    (laws : IsShowing q pi v) where
  abbrev pub max : ℤ
  max = max_attempts pi

  replace_entries-shown :
      (file : String) (n : ℤ) (reason : String) (ids : List String) (w : W)
      → shown v (replace_entries q pi file n reason ids w)
        ≡ (v.taken w, v.known w, file ∷ v.buried w)
  unfolding replace_entries bury
  replace_entries-shown file n reason [] w = laws.buries file n reason w
  replace_entries-shown file n reason (id ∷ ids) w =
      let gone = q.delete_messages (get_queue_dlq pi) (id ∷ ids) w in
      elim (Result-cases gone.0) [
        | inl (a, done) ↦
            let kept = laws.delete_keeps (get_queue_dlq pi) (id ∷ ids) w in
            rw (done, replace_entries)
              (laws.buries file n reason gone.1 ∙ ap (λ t. (t.0, t.1, file ∷ t.2)) kept)
        | inr (e, failed) ↦
            let answered = laws.delete_answers (get_queue_dlq pi) (id ∷ ids) w in
            let bad = rw (failed) at answered in absurd (cc bad)
      ]

  replace_entries-left :
      (file : String) (n : ℤ) (reason : String) (ids : List String) (w : W)
      → v.left (replace_entries q pi file n reason ids w) ≡ v.left w
  unfolding replace_entries bury
  replace_entries-left file n reason [] w = laws.bury_leaves file n reason w
  replace_entries-left file n reason (id ∷ ids) w =
      let gone = q.delete_messages (get_queue_dlq pi) (id ∷ ids) w in
      let same = laws.delete_leaves (id ∷ ids) w in
      elim (Result-cases gone.0) [
        | inl (a, done) ↦ rw (done, replace_entries) (laws.bury_leaves file n reason gone.1 ∙ same)
        | inr (e, failed) ↦ rw (failed, replace_entries) same
      ]

  pub bury_all-left :
      (reason : String) (ids : Dict (List String)) (files : Dict ℤ) (w : W)
      → v.left (bury_all q pi max reason ids files w) ≡ v.left w
  unfolding bury_all
  bury_all-left reason ids [] w = refl
  bury_all-left reason ids ((key, n) ∷ files) w =
      bury_all-left reason ids files _
      ∙ replace_entries-left key (final_attempts max n) reason (or_else (lookup key ids) []) w

  -- The files that are buried in a pass over the account are those that it has, besides the former.
  abbrev pub Buries : (String → Type 0) → W → W → Type 0
  Buries Wanted w u =
      (v.taken u ≡ v.taken w)
      × (v.known u ≡ v.known w)
      × ((file : String)
          → Any (λ f. f ≡ file) (v.buried u) ↔ (Any (λ f. f ≡ file) (v.buried w) ⊎ Wanted file))

  pub bury_all-Buries :
      (reason : String) (ids : Dict (List String)) (files : Dict ℤ) (w : W)
      → Buries (λ file. HasKey file files) w (bury_all q pi max reason ids files w)
  unfolding bury_all
  bury_all-Buries reason ids [] w =
      (refl, refl, λ file. ((λ h. inl h), λ h. elim h [ inl old ↦ old | inr bad ↦ absurd bad ]))
  bury_all-Buries reason ids ((key, n) ∷ files) w =
      let u =
        replace_entries q pi key (final_attempts max n) reason (or_else (lookup key ids) []) w in
      let shows =
        replace_entries-shown key (final_attempts max n) reason (or_else (lookup key ids) []) w in
      let (same_taken, same_known, all) = bury_all-Buries reason ids files u in
      (
        same_taken ∙ ap (λ t. t.0) shows,
        same_known ∙ ap (λ t. t.1) shows,
        λ file.
            let (to, from) = all file in
            (
              λ h. elim (to h) [
                | inr later ↦ inr (inr later)
                | inl before ↦ elim (subst (λ t. Any (λ f. f ≡ file) t.2) shows before) [
                  | inl new ↦ inr (inl new)
                  | inr old ↦ inl old
                ]
              ],
              λ h. elim h [
                | inl old ↦ from (inl (subst (λ t. Any (λ f. f ≡ file) t.2) (sym shows) (inr old)))
                | inr (inl new) ↦
                    from (inl (subst (λ t. Any (λ f. f ≡ file) t.2) (sym shows) (inl new)))
                | inr (inr later) ↦ from (inr later)
              ],
            ),
      )

  -- The account of the dead letter queue has the files of the entries that were shown.
  pub read_existing-known :
      (w : W)
      → v.known w ≡ []
      → let r = read_existing q pi w in
        (v.taken r.1 ≡ v.taken w)
        × (v.buried r.1 ≡ v.buried w)
        × ((file : String) → IsNoted file r.0.attempts ↔ Any (IsCounted max file) (v.known r.1))
  unfolding read_existing
  read_existing-known w none_known =
      let read = q.read_range (get_queue_dlq pi) "-" "+" (pos 0) w in
      elim (Result-cases read.0) [
        | inr (e, failed) ↦
            let answered = laws.dlq_answers (pos 0) w in
            let bad = rw (failed) at answered in absurd (cc bad)
        | inl (msgs, shows) ↦
            let grew = laws.dlq_shows (pos 0) w msgs shows in
            let all = ap (λ t. t.1) grew ∙ ap (λ ms. msgs ++ ms) none_known in
            rw (shows, read_existing)
              (
                ap (λ t. t.0) grew,
                ap (λ t. t.2) grew,
                λ file.
                    let (to, from) = note_existing-IsNoted max file msgs nothing_known in
                    let (split, join) = Any-append (IsCounted max file) msgs [] in
                    (
                      λ h. subst (Any (IsCounted max file)) (sym all) (elim (to h) [
                        | inl nothing ↦ absurd (none-IsNoted file nothing)
                        | inr found ↦ join (inl found)
                      ]),
                      λ h. from (
                          inr (elim (split (subst (Any (IsCounted max file)) all h)) [
                            | inl found ↦ found
                            | inr bad ↦ absurd bad
                          ])),
                    ),
              )
      ]
