-- ===== src/Threads/Alone/Bind.antt =====
-- A program that is followed by another, with no other thread between their locks.
use bitcoin_client.Prelude.{◌≡◌, refl, ap, ◌∙◌, Option, ◌>>=◌}
use bitcoin_client.Threads.{Shared, Program, done, panic, acquire, alone, bind, read, write}

pub alone-bind :
    {A B : Type 0} (p : Program A) (g : A → Program B) (s : Shared)
    → alone (bind p g) s ≡ (alone p s >>= λ r. alone (g r.1) r.0)
unfolding alone
alone-bind (done a) g s = refl
alone-bind panic g s = refl
alone-bind (acquire l f k) g s = alone-bind (k (read l s)) g (write l s (f (read l s)))

pub alone-bind_eq :
    {A B : Type 0} (p : Program A) (g : A → Program B) (s : Shared) (o : Option (Shared × A))
    → alone p s ≡ o
    → alone (bind p g) s ≡ (o >>= λ r. alone (g r.1) r.0)
alone-bind_eq p g s o e = alone-bind p g s ∙ ap (λ x. x >>= λ r. alone (g r.1) r.0) e
