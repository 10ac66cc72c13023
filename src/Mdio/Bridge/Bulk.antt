-- ===== src/Mdio/Bridge/Bulk.antt =====
-- src/mdio/mdio_bridge.cpp: the bulk read of `!print`, one `pollResponse` for each register.
use ch32_tapioca.Prelude.{
  ℕ, suc, ◌+◌, ◌<◌, ◌≡◌, ◌≢◌, refl, ap, arith, Bool, true, false, ◌&&◌, List, [], ◌∷◌, ◌++◌, some,
  if◌then◌else◌, inl, inr, Bool-cases, subst, sym, ◌∙◌, append_assoc, length, All,
}
use ch32_tapioca.Mdio.Slot.{Response, pending, read, submit}
use ch32_tapioca.Mdio.Bridge.Command.{verb_read, verb_print, Command, parse}
use ch32_tapioca.Mdio.Bridge.Session.{
  Bridge, is_done, clause22, start_read, take_response, poll_response, run_print, handle_line,
  blink, blink_ok,
}
use ch32_tapioca.Mdio.Bridge.Replies.{reply_for}
use ch32_tapioca.Mdio.Bridge.BulkSteps.{
  served, serve_all, bulk_replies, all_done, IsBulk, take_response-bulk, poll_next-ends, finished,
  and_true, and_assoc, to_print, served-IsBulk,
}

-- The blink that closes a bulk read.
abbrev pub blinked : Bool → List (ℕ × ℕ) → Bool → List (ℕ × ℕ)
blinked led bs good = if led then bs ++ (if good then (50, 50) else (500, 100)) ∷ [] else bs

blinked-ap :
    {led led' good good' : Bool} {bs bs' : List (ℕ × ℕ)}
    → led ≡ led'
    → bs ≡ bs'
    → good ≡ good'
    → blinked led bs good ≡ blinked led' bs' good'
blinked-ap l b g = cc

served-last :
    (b : Bridge) (phy : ℕ) (r : Response)
    → IsBulk b phy 31
    → r.status ≢ pending
    → ((served b r).replies ≡ b.replies ++ reply_for (clause22 verb_read phy 31) r ∷ [])
      × ((served b r).print_active ≡ false)
      × ((served b r).is_pending ≡ false)
      × ((served b r).blinks ≡ blinked b.has_led b.blinks (b.print_all_ok && is_done r.status))
unfolding poll_response
served-last b phy r (p, q, at, act, next) f =
    let t = take_response (finished b r) in
    let (t1, t2, t3, t4, t5, t6, t7, t8, t9) = take_response-bulk (finished b r) p q f in
    let (n1, n2, n3, n4) = poll_next-ends t t1 t2 (t4 ∙ next) in
    (n3 ∙ t9 ∙ ap (λ a. b.replies ++ reply_for a r ∷ []) act, n1, n2, n4 ∙ blinked-ap t6 t7 t8)

-- The end of a bulk read whose next outcome is that of `reg`.
serve_all-bulk :
    (b : Bridge) (phy reg : ℕ) (rs : List Response)
    → IsBulk b phy reg
    → reg + length rs ≡ 32
    → 0 < length rs
    → All (λ r. r.status ≢ pending) rs
    → let e = serve_all b rs in
      (e.replies ≡ b.replies ++ bulk_replies phy reg rs)
      × (e.print_active ≡ false)
      × (e.is_pending ≡ false)
      × (e.blinks ≡ blinked b.has_led b.blinks (b.print_all_ok && all_done rs))
serve_all-bulk b phy reg [] k n z f = absurd (omega arith)
serve_all-bulk b phy reg (r ∷ []) k n z f =
    let last : reg ≡ 31 = omega arith in
    let (e1, e2, e3, e4) = served-last b phy r (subst (IsBulk b phy) last k) f.0 in
    (
      e1 ∙ ap (λ i. b.replies ++ reply_for (clause22 verb_read phy i) r ∷ []) (sym last),
      e2,
      e3,
      e4
          ∙ ap (λ g. blinked b.has_led b.blinks g)
              (ap (λ x. b.print_all_ok && x) (sym (and_true (is_done r.status)))),
    )
serve_all-bulk b phy reg (r ∷ r' ∷ rs) k n z f =
    let (k', rep, good, bl, led) = served-IsBulk b phy reg r k (omega arith) f.0 in
    let (e1, e2, e3, e4) =
      serve_all-bulk (served b r) phy (suc reg) (r' ∷ rs) k' (omega arith) (omega arith) f.1 in
    (
      e1
          ∙ ap (λ l. l ++ bulk_replies phy (suc reg) (r' ∷ rs)) rep
          ∙ append_assoc b.replies (reply_for (clause22 verb_read phy reg) r ∷ []) _,
      e2,
      e3,
      e4
          ∙ blinked-ap led bl (
              ap (λ x. x && all_done (r' ∷ rs)) good
              ∙ and_assoc b.print_all_ok (is_done r.status) _),
    )

run_print-IsBulk :
    (b : Bridge) (c : Command)
    → b.print_active ≡ false
    → b.is_pending ≡ false
    → b.mdio.active ≡ false
    → let r = run_print b c in
      IsBulk r c.phy 0
      × (r.replies ≡ b.replies)
      × (r.has_led ≡ b.has_led)
      × (r.print_all_ok ≡ true)
      × (r.blinks ≡ blinked b.has_led b.blinks true)
unfolding run_print start_read read submit blink_ok blink
run_print-IsBulk b c p q free = elim (Bool-cases b.has_led) [
  | inl l ↦ rw (p, q, free, l) ((refl, refl, refl, refl, refl), refl, refl, refl, refl)
  | inr l ↦ rw (p, q, free, l) ((refl, refl, refl, refl, refl), refl, refl, refl, refl)
]

-- `!print <phy>` to an idle bridge over an idle master: once the 32 reads have had their outcomes, none of
-- them pending, the replies are those of the registers 0 to 31, in order, and the bulk read is over. The LED,
-- where there is one, blinks at its start, and at its end, for success only if every read has succeeded.
pub print-bulk :
    (b : Bridge) (line : List ℕ) (c : Command) (rs : List Response)
    → parse line ≡ some c
    → c.op ≡ verb_print
    → b.print_active ≡ false
    → b.is_pending ≡ false
    → b.mdio.active ≡ false
    → length rs ≡ 32
    → All (λ r. r.status ≢ pending) rs
    → let e = serve_all (handle_line b line) rs in
      (e.replies ≡ b.replies ++ bulk_replies c.phy 0 rs)
      × (e.print_active ≡ false)
      × (e.is_pending ≡ false)
      × (e.blinks ≡ blinked b.has_led (blinked b.has_led b.blinks true) (all_done rs))
print-bulk b line c rs e v p q free n f =
    let start = run_print b c in
    let (k, rep, led, good, bl) = run_print-IsBulk b c p q free in
    let (e1, e2, e3, e4) = serve_all-bulk start c.phy 0 rs k (omega arith) (omega arith) f in
    rw (to_print b line c e v) (
      e1 ∙ ap (λ l. l ++ bulk_replies c.phy 0 rs) rep,
      e2,
      e3,
      e4 ∙ blinked-ap led bl (ap (λ x. x && all_done rs) good),
    )
