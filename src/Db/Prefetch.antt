-- ===== src/Db/Prefetch.antt =====
-- The prefetch of the columns: its chunks, its end, and the newer prefetch that stops it
-- (apps/web/src/core/stores/db.ts).
use agentgrove.Base.{
  ==_iff, Dict, List, Option, Str, [], ap, arith, drop, false, foldl, if_false, if_true, length,
  length-drop, none, refl, some, suc, take, zero, ℕ, ◌==◌, ◌∙◌, ◌∷◌, ◌≡◌, ◌≤◌,
}
use agentgrove.Chat.Session.{Answer, ok}
use agentgrove.Db.{DbColumn, DbState}
use agentgrove.Db.Calls.{
  Prefetch, describe, load_db_tables_finish, prefetch_chunk, prefetch_columns,
}

foldl-split {ℓ κ} :
    {A : Type ℓ} {B : Type κ} (f : B → A → B) (n : ℕ) (xs : List A) (b : B)
    → foldl f (foldl f b (take n xs)) (drop n xs) ≡ foldl f b xs
foldl-split f zero xs b = refl
foldl-split f (suc n) [] b = refl
foldl-split f (suc n) (x ∷ xs) b = foldl-split f n xs (f b x)

pub prefetch_chunk-current :
    (answers : Str → Answer (List DbColumn)) (p : Prefetch) (s : DbState)
    → p.token ≡ s.prefetch_token
    → prefetch_chunk answers p s ≡ (
      record s { column_cache = foldl (describe answers) p.acc (take 8 p.todo) },
      some
          (record p { todo = drop 8 p.todo; acc = foldl (describe answers) p.acc (take 8 p.todo) }),
    )
unfolding prefetch_chunk
prefetch_chunk-current answers p s e =
    if_true (p.token == s.prefetch_token) _ _ ((==_iff p.token s.prefetch_token).1 e)

abbrev with_cache : Dict (List Str) → DbState → DbState
with_cache cache s = record s { column_cache = cache }

abbrev prefetch_of : ℕ → Str → List Str → Dict (List Str) → Prefetch
prefetch_of token url todo acc = record { token = token; url = url; todo = todo; acc = acc }

whole :
    (fuel : ℕ) (answers : Str → Answer (List DbColumn)) (token : ℕ) (url : Str) (todo : List Str)
    (acc : Dict (List Str)) (s : DbState)
    → token ≡ s.prefetch_token
    → s.column_cache ≡ acc
    → length todo ≤ fuel
    → prefetch_columns fuel answers (prefetch_of token url todo acc) s
      ≡ with_cache (foldl (describe answers) acc todo) s
unfolding prefetch_columns
whole zero answers token url [] acc s e c le = ap (λ (m : Dict (List Str)). with_cache m s) c
whole zero answers token url (t ∷ ts) acc s e c le = absurd (omega (arith, le))
whole (suc fuel) answers token url [] acc s e c le = ap (λ (m : Dict (List Str)). with_cache m s) c
whole (suc fuel) answers token url (t ∷ ts) acc s e c le =
    let found = foldl (describe answers) acc (take 8 (t ∷ ts)) in
    let go_on = λ (r : DbState × Option Prefetch). elim r.1 as (λ o. DbState) [
      | none ↦ r.0
      | some q ↦ prefetch_columns fuel answers q r.0
    ] in
    ap go_on (prefetch_chunk-current answers (prefetch_of token url (t ∷ ts) acc) s e)
    ∙ whole fuel answers token url (drop 8 (t ∷ ts)) found (with_cache found s) e refl
        (omega (arith, le, length-drop 7 ts))
    ∙ ap (λ (m : Dict (List Str)). with_cache m s) (foldl-split (describe answers) 8 (t ∷ ts) acc)

-- A prefetch that is the newest one, that nothing interrupts and that has written what it has
-- found, ends with as much fuel as it has tables left, and leaves in the cache what describing its
-- tables one after the other gives: the chunks do not show.
pub prefetch_columns-whole :
    (fuel : ℕ) (answers : Str → Answer (List DbColumn)) (p : Prefetch) (s : DbState)
    → p.token ≡ s.prefetch_token
    → s.column_cache ≡ p.acc
    → length p.todo ≤ fuel
    → prefetch_columns fuel answers p s
      ≡ record s { column_cache = foldl (describe answers) p.acc p.todo }
prefetch_columns-whole fuel answers p s e c le =
    whole fuel answers p.token p.url p.todo p.acc s e c le

-- Once the tables are loaded anew, the next chunk of a prefetch that was there before, whatever its
-- answers, writes nothing and ends it.
pub prefetch_chunk-superseded :
    (url : Str) (list : List Str) (answers : Str → Answer (List DbColumn)) (p : Prefetch)
    (s : DbState)
    → p.token ≤ s.prefetch_token
    → prefetch_chunk answers p (load_db_tables_finish url (ok list) s).0
      ≡ ((load_db_tables_finish url (ok list) s).0, none)
unfolding prefetch_chunk load_db_tables_finish
prefetch_chunk-superseded url list answers p s le =
    let old : (p.token == suc s.prefetch_token) ≡ false =
      ground (arith, ==_iff p.token (suc s.prefetch_token)) in
    if_false (p.token == suc s.prefetch_token) _ _ old
