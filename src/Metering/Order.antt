-- ===== src/Metering/Order.antt =====
-- Go visits the users of a batch in any order: the wallets do not tell.
use tts_platform.Common.{
  ◌≡◌, refl, ap, ap₂, subst, ◌∙◌, inl, inr, false, none, some, List, [], ◌∷◌, map, Bytes, bytes_eq,
  bytes_eq_iff, bytes_eq_comm, All, arith, Bool-cases,
}
use mathlib.Core.List.{Permᴰ}
use tts_platform.Numbers.{Numbers}
use tts_platform.Postgres.{WalletRow}
use tts_platform.Valkey.{Valkey}
use tts_platform.Metering.Consumer.{Codec, debit_wallet}
use tts_platform.Metering.Debit.{total_of}
use tts_platform.Metering.Ledger.{Posting, post, post_all}

module _ (num : Numbers) where
  debit_wallet-user :
      (user : Bytes) (cost : num.Float) (w : WalletRow num)
      → (debit_wallet num user cost w).user_id ≡ w.user_id
  unfolding debit_wallet
  debit_wallet-user user cost w = ground arith

  debit_wallet_comm :
      (u v : Bytes) (a b : num.Float) (w : WalletRow num)
      → bytes_eq u v ≡ false
      → debit_wallet num u a (debit_wallet num v b w)
        ≡ debit_wallet num v b (debit_wallet num u a w)
  unfolding debit_wallet
  debit_wallet_comm u v a b w ne = elim (Bool-cases (bytes_eq w.user_id u)) [
    | inl mine ↦
        let other : bytes_eq w.user_id v ≡ false =
          ap (λ k. bytes_eq k v) ((bytes_eq_iff w.user_id u).0 mine) ∙ ne in
        ground arith
    | inr out ↦ ground arith
  ]

  map_debit_comm :
      (u v : Bytes) (a b : num.Float) (ws : List (WalletRow num))
      → bytes_eq u v ≡ false
      → map (debit_wallet num u a) (map (debit_wallet num v b) ws)
        ≡ map (debit_wallet num v b) (map (debit_wallet num u a) ws)
  map_debit_comm u v a b [] ne = refl
  map_debit_comm u v a b (w ∷ ws) ne =
      ap₂ (λ (x : WalletRow num) (xs : List (WalletRow num)). x ∷ xs)
        (debit_wallet_comm u v a b w ne) (map_debit_comm u v a b ws ne)

module _ (num : Numbers) where
  -- The user of a posting is another one.
  abbrev pub IsApart : Posting num → Posting num → Type 0
  IsApart ((u, _), _) ((v, _), _) = bytes_eq u v ≡ false

  -- No user has two postings.
  abbrev pub IsDistinct : List (Posting num) → Type 0
  IsDistinct [] = Unit {0}
  IsDistinct (p ∷ ps) = All (IsApart p) ps × IsDistinct ps

  IsApart-sym : (p q : Posting num) → IsApart p q → IsApart q p
  IsApart-sym ((u, es), f) ((v, es'), f') h = bytes_eq_comm v u ∙ h

  All-perm :
      (P : Posting num → Type 0) {ps qs : List (Posting num)} → Permᴰ ps qs → All P ps → All P qs
  All-perm P Permᴰ.nil h = tt
  All-perm P (Permᴰ.cons e r) (h0, h) = (subst P e h0, All-perm P r h)
  All-perm P (Permᴰ.swap e f) (h0, (h1, h)) = (subst P f h1, (subst P e h0, h))
  All-perm P (Permᴰ.trans r s) h = All-perm P s (All-perm P r h)

  IsDistinct-perm : {ps qs : List (Posting num)} → Permᴰ ps qs → IsDistinct ps → IsDistinct qs
  IsDistinct-perm Permᴰ.nil h = tt
  IsDistinct-perm (Permᴰ.cons {l₂ = qs} e r) (alone, h) =
      (subst (λ p. All (IsApart p) qs) e (All-perm _ r alone), IsDistinct-perm r h)
  IsDistinct-perm (Permᴰ.swap {a = p} {b = q} {a' = p'} {l = ps} e f)
        ((apart, alone), (alone', h)) =
      (
        (
          subst (IsApart p') e (subst (λ x. IsApart x p) f (IsApart-sym p q apart)),
          subst (λ x. All (IsApart x) ps) f alone',
        ),
        (subst (λ x. All (IsApart x) ps) e alone, h),
      )
  IsDistinct-perm (Permᴰ.trans r s) h = IsDistinct-perm s (IsDistinct-perm r h)

module _ (num : Numbers) (vk : Valkey) (codec : Codec num) (ppm : num.Float) where
  post_comm :
      (p q : Posting num) (ws : List (WalletRow num))
      → IsApart num p q
      → post num vk codec ppm q (post num vk codec ppm p ws)
        ≡ post num vk codec ppm p (post num vk codec ppm q ws)
  unfolding post
  post_comm (b, none) (b', f) ws ne = refl
  post_comm ((u, es), some prices) ((v, es'), none) ws ne = refl
  post_comm ((u, es), some prices) ((v, es'), some prices') ws ne = ground (
    arith,
    map_debit_comm num u v (total_of num vk codec ppm es prices)
        (total_of num vk codec ppm es' prices') ws ne,
  )

-- When each of the users has one batch, the order in which the batches are posted does not matter: another
-- order of the same postings leaves the same wallets.
pub post_all-perm :
    (num : Numbers) (vk : Valkey) (codec : Codec num) (ppm : num.Float) {ps qs : List (Posting num)}
    → Permᴰ ps qs
    → IsDistinct num ps
    → (ws : List (WalletRow num))
    → post_all num vk codec ppm ps ws ≡ post_all num vk codec ppm qs ws
post_all-perm num vk codec ppm Permᴰ.nil h ws = refl
post_all-perm num vk codec ppm (Permᴰ.cons {a = p} {l₂ = qs} e r) (alone, h) ws =
    post_all-perm num vk codec ppm r h (post num vk codec ppm p ws)
    ∙ ap (λ x. post_all num vk codec ppm qs (post num vk codec ppm x ws)) e
post_all-perm num vk codec ppm (Permᴰ.swap {a = p} {b = q} {l = ps} e f) ((apart, alone), h) ws =
    ap (post_all num vk codec ppm ps) (
      post_comm num vk codec ppm p q ws apart
      ∙ ap₂ (λ (x y : Posting num). post num vk codec ppm x (post num vk codec ppm y ws)) e f)
post_all-perm num vk codec ppm (Permᴰ.trans r s) h ws =
    post_all-perm num vk codec ppm r h ws
    ∙ post_all-perm num vk codec ppm s (IsDistinct-perm num r h) ws
