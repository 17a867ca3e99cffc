-- ===== src/Wallet/Notices/Sent.antt =====
-- The notices that a periodic check sends.
use mathlib.Core.List.{append-nil, append_assoc}
use dlc_stack.Base.{
  String, ◌≡◌, refl, sym, ap, ◌∙◌, Bool, true, false, List, [], ◌∷◌, ◌++◌, map, keep, keep-append,
  ok, ℕ,
}
use dlc_stack.Wallet.World.{
  World, Net, Notice, Request, get_all_attestors, get_public_key, get_chain, set_status_funded,
  post_close_dlc, requested,
}
use dlc_stack.Wallet.Attestors.{get_chain_from_attestors}
use dlc_stack.Wallet.Notices.{News, notify, notify_all}

abbrev pub is_notice : Request → Bool
is_notice (set_status_funded n) = true
is_notice (post_close_dlc n) = true
is_notice get_all_attestors = false
is_notice (get_public_key url) = false
is_notice (get_chain k uuid) = false

-- The notices among the requests.
abbrev pub notices : World → List Request
notices w = keep is_notice w.requests

-- The attestors agree on the chain of every event, and the blockchain interface answers.
pub record IsReachable (net : Net) (attestors : List String) (chain_of : String → String)
    : Type 0 where
  pub agree :
      (uuid : String) (w : World)
      → (get_chain_from_attestors net attestors uuid w).0 ≡ ok (chain_of uuid)
  pub status : World → Request → ℕ
  pub answers : (w : World) (r : Request) → net.post w r ≡ ok (status w r)

no_notices :
    (keys : List String) (uuid : String) → keep is_notice (map (λ k. get_chain k uuid) keys) ≡ []
no_notices [] uuid = refl
no_notices (k ∷ keys) uuid = no_notices keys uuid

abbrev pub told : (Notice → Request) → (String → String) → String × String → Request
told kind chain_of x = kind (record { uuid = x.0; btc_tx_id = x.1; chain = chain_of x.0 })

notices-requested :
    (r : Request) (w : World) → is_notice r ≡ true → notices (requested r w) ≡ notices w ++ r ∷ []
notices-requested r w e = keep-append is_notice w.requests (r ∷ []) ∙ rw e refl

module _ (net : Net) (attestors : List String) where
  -- Asking for a chain is no notice.
  pub notices-get_chain :
      (uuid : String) (w : World)
      → notices (get_chain_from_attestors net attestors uuid w).1 ≡ notices w
  unfolding get_chain_from_attestors
  notices-get_chain uuid w =
      keep-append is_notice w.requests (map (λ k. get_chain k uuid) attestors)
      ∙ ap (λ rs. keep is_notice w.requests ++ rs) (no_notices attestors uuid)
      ∙ append-nil _

  notify-sends :
      (kind : Notice → Request) (chain_of : String → String) (ns : List (String × String))
      (w : World)
      → ((n : Notice) → is_notice (kind n) ≡ true)
      → IsReachable net attestors chain_of
      → ((notify net kind attestors ns w).0 ≡ ok tt)
        × (notices (notify net kind attestors ns w).1 ≡ notices w ++ map (told kind chain_of) ns)
  unfolding notify
  notify-sends kind chain_of [] w is r = (refl, sym (append-nil _))
  notify-sends kind chain_of (x ∷ ns) w is r =
      let notice = told kind chain_of x in
      let w' = requested notice (get_chain_from_attestors net attestors x.0 w).1 in
      let (done, sent) = notify-sends kind chain_of ns w' is r in
      rw (r.agree x.0 w, r.answers (get_chain_from_attestors net attestors x.0 w).1 notice)
        (
          done,
          sent
              ∙ ap (λ rs. rs ++ map (told kind chain_of) ns)
                  (notices-requested notice (get_chain_from_attestors net attestors x.0 w).1 (is _))
              ∙ ap (λ rs. (rs ++ notice ∷ []) ++ map (told kind chain_of) ns)
                  (notices-get_chain x.0 w)
              ∙ append_assoc (notices w) (notice ∷ []) (map (told kind chain_of) ns),
        )

  pub notify_all-sends :
      (chain_of : String → String) (news : News) (w : World)
      → IsReachable net attestors chain_of
      → ((notify_all net attestors news w).0 ≡ ok "Success running periodic check")
        × (notices (notify_all net attestors news w).1
            ≡ notices w
              ++ (map (told set_status_funded chain_of) news.confirmed
                  ++ map (told post_close_dlc chain_of) news.closed))
  unfolding notify_all
  notify_all-sends chain_of news w r =
      let (funded, first_sent) =
        notify-sends set_status_funded chain_of news.confirmed w (λ n. refl) r in
      let (reported, then_sent) =
        notify-sends post_close_dlc chain_of news.closed
          (notify net set_status_funded attestors news.confirmed w).1 (λ n. refl) r in
      rw (funded, reported)
        (
          refl,
          then_sent
              ∙ ap (λ rs. rs ++ map (told post_close_dlc chain_of) news.closed) first_sent
              ∙ append_assoc (notices w) (map (told set_status_funded chain_of) news.confirmed)
                  (map (told post_close_dlc chain_of) news.closed),
        )
