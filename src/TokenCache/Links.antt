-- ===== src/TokenCache/Links.antt =====
-- The links between the map and the recency list of pkg/api/s21_token_cache.go.
use s21_identity_service.Base.{ℕ, ◌<◌, ◌≡◌, sym, ◌∙◌, ◌≢◌, true, none, some, arith, length, text_eq}
use s21_identity_service.Base.Map
use s21_identity_service.Base.Map.{
  lookup, NodupKeys, lookup-insert, lookup-erase, insert-NodupKeys, erase-NodupKeys,
  length-insert_new, length-erase_found,
}
use s21_identity_service.Text.{Text}
use s21_identity_service.Store.{Time}
use s21_identity_service.TokenCache.Defs.{
  Entry, TokenCache, contains, remove, move_to_front, back, write, drop_back, push,
}
use s21_identity_service.TokenCache.Pointers.{
  IsDistinct, contains-remove, remove-IsDistinct, length-remove, contains-back, OnlyAt,
}

pub record IsLinked (c : TokenCache) : Type 0 where
  pub nodup : NodupKeys c.entries
  pub distinct : IsDistinct c.lru
  pub hash_of : (k : Text) (a : ℕ) → lookup k c.entries ≡ some a → (c.heap a).hash ≡ k
  pub listed : (k : Text) (a : ℕ) → lookup k c.entries ≡ some a → contains c.lru a ≡ true
  pub mapped : (a : ℕ) → contains c.lru a ≡ true → lookup (c.heap a).hash c.entries ≡ some a
  pub fresh : (a : ℕ) → contains c.lru a ≡ true → a < c.next
  pub sizes : length c.entries ≡ length c.lru

module _ {c : TokenCache} (w : IsLinked c) where
  -- A hash that the map holds is at one element.
  pub OnlyAt-mapped : (h : Text) (a : ℕ) → lookup h c.entries ≡ some a → OnlyAt c.heap h a c.lru
  OnlyAt-mapped h a l x k e = ground (arith, w.mapped x k)

  pub unmapped :
      (h : Text)
      → lookup h c.entries ≡ none
      → (x : ℕ) → contains c.lru x ≡ true
      → (c.heap x).hash ≢ h
  unmapped h l x k e = ground (arith, w.mapped x k)

  -- Dropping an element from both sides, as an expired read, `Invalidate` and eviction do.
  pub unlink-IsLinked :
      (h : Text) (a : ℕ)
      → lookup h c.entries ≡ some a
      → IsLinked (record c { entries = Map.erase h c.entries; lru = remove a c.lru })
  unlink-IsLinked h a l = record {
    nodup = erase-NodupKeys h c.entries w.nodup;
    distinct = remove-IsDistinct a c.lru w.distinct;
    hash_of = λ k x q. w.hash_of k x (ground (arith, lookup-erase h k c.entries));
    listed = λ k x q. ground (
      arith,
      lookup-erase h k c.entries,
      contains-remove a x c.lru,
      w.listed k x,
      w.hash_of k x,
      w.hash_of h a l,
    );
    mapped = λ x q. ground (
      arith,
      contains-remove a x c.lru,
      lookup-erase h (c.heap x).hash c.entries,
      w.mapped x,
      OnlyAt-mapped h a l x,
    );
    fresh = λ x q. w.fresh x (ground (arith, contains-remove a x c.lru));
    sizes = omega (
      arith,
      w.sizes,
      length-erase_found h a c.entries w.nodup l,
      length-remove a c.lru w.distinct (w.listed h a l),
    );
  }

  contains-move_to_front : (a x : ℕ) → contains (move_to_front a c.lru) x ≡ contains c.lru x
  unfolding move_to_front
  contains-move_to_front a x = ground (arith, contains-remove a x c.lru)

  move_to_front-IsDistinct : (a : ℕ) → IsDistinct (move_to_front a c.lru)
  unfolding move_to_front
  move_to_front-IsDistinct a =
      ground (arith, contains-remove a a c.lru, remove-IsDistinct a c.lru w.distinct, w.distinct)

  length-move_to_front : (a : ℕ) → length (move_to_front a c.lru) ≡ length c.lru
  unfolding move_to_front
  length-move_to_front a = ground (arith, length-remove a c.lru w.distinct)

  pub promote-IsLinked : (a : ℕ) → IsLinked (record c { lru = move_to_front a c.lru })
  promote-IsLinked a = record {
    nodup = w.nodup;
    distinct = move_to_front-IsDistinct a;
    hash_of = w.hash_of;
    listed = λ k x q. contains-move_to_front a x ∙ w.listed k x q;
    mapped = λ x q. w.mapped x (sym (contains-move_to_front a x) ∙ q);
    fresh = λ x q. w.fresh x (sym (contains-move_to_front a x) ∙ q);
    sizes = w.sizes ∙ sym (length-move_to_front a);
  }

  -- A write that keeps the hash of the element.
  pub write-IsLinked :
      (a : ℕ) (e : Entry)
      → e.hash ≡ (c.heap a).hash
      → IsLinked (record c { heap = write c.heap a e })
  unfolding write
  write-IsLinked a e p = record {
    nodup = w.nodup;
    distinct = w.distinct;
    hash_of = λ k x q. ground (arith, w.hash_of k x q);
    listed = w.listed;
    mapped = λ x q. ground (arith, w.mapped x q);
    fresh = w.fresh;
    sizes = w.sizes;
  }

  -- A new element, for a hash that the map does not hold.
  pub push-IsLinked :
      (hash_token : Text → Text) (now : Time) (key login : Text)
      → lookup key c.entries ≡ none
      → IsLinked (push hash_token now key login c)
  unfolding push write
  push-IsLinked hash_token now key login absent =
      let el = c.next in
      record {
        nodup = insert-NodupKeys key el c.entries w.nodup;
        distinct = (ground (arith, w.fresh el), w.distinct);
        hash_of = λ k x q.
            ground
              (arith, lookup-insert key k el c.entries, w.hash_of k x, w.listed k x, w.fresh x);
        listed = λ k x q. ground (arith, lookup-insert key k el c.entries, w.listed k x);
        mapped = λ x q. ground (
          arith,
          lookup-insert key (c.heap x).hash el c.entries,
          lookup-insert key key el c.entries,
          w.mapped x,
          w.fresh x,
        );
        fresh = λ x q. ground (arith, w.fresh x);
        sizes = omega (arith, w.sizes, length-insert_new key el c.entries absent);
      }

back-listed : (c : TokenCache) (b : ℕ) → back c.lru ≡ some b → contains c.lru b ≡ true
back-listed c b e = contains-back b c.lru e

pub drop_back-IsLinked :
    {c : TokenCache} → IsLinked c → (b : ℕ) → back c.lru ≡ some b → IsLinked (drop_back b c)
unfolding drop_back
drop_back-IsLinked {c} w b e = unlink-IsLinked w (c.heap b).hash b (w.mapped b (back-listed c b e))
