-- ===== src/SocketHandler/Holds.antt =====
-- The descriptors of the sockets in a list of slots.
use calabash.Base.{ℕ, ◌+◌, ◌≡◌, ◌<◌, refl, ◌++◌, List, [], ◌∷◌, count, remove_one, arith}
use calabash.Socket.{Socket}
use calabash.Socket.Opened.{descriptors}
use calabash.SocketHandler.EventLoop.{put_socket}

-- How often a descriptor is that of a socket in a list of slots.
unfoldable pub holds : ℕ → (ℕ → Socket) → List ℕ → ℕ
holds a sockets [] = 0
holds a sockets (slot ∷ slots) = count a (descriptors (sockets slot).sockfd) + holds a sockets slots

pub holds-append :
    (a : ℕ) (f : ℕ → Socket) (xs ys : List ℕ) → holds a f (xs ++ ys) ≡ holds a f xs + holds a f ys
unfolding holds
holds-append a f [] ys = omega arith
holds-append a f (x ∷ xs) ys = omega (arith, holds-append a f xs ys)

pub holds-remove_one :
    (a s : ℕ) (f : ℕ → Socket) (xs : List ℕ)
    → 0 < count s xs
    → holds a f (remove_one s xs) + count a (descriptors (f s).sockfd) ≡ holds a f xs
unfolding holds remove_one count
holds-remove_one a s f [] h = absurd (omega arith)
holds-remove_one a s f (x ∷ xs) h = ground (arith, holds-remove_one a s f xs)

pub holds-put_socket :
    (a s : ℕ) (v : Socket) (f : ℕ → Socket) (xs : List ℕ)
    → count s xs ≡ 0
    → holds a (put_socket s v f) xs ≡ holds a f xs
unfolding holds count
holds-put_socket a s v f [] h = refl
holds-put_socket a s v f (x ∷ xs) h = ground (arith, holds-put_socket a s v f xs)

pub holds-in_use :
    (a : ℕ) (f : ℕ → Socket) (xs ys zs : List ℕ)
    → holds a f (xs ++ (ys ++ zs)) ≡ holds a f xs + holds a f ys + holds a f zs
holds-in_use a f xs ys zs = omega (arith, holds-append a f xs (ys ++ zs), holds-append a f ys zs)

pub holds-cons :
    (a s : ℕ) (f : ℕ → Socket) (xs : List ℕ)
    → holds a f (s ∷ xs) ≡ count a (descriptors (f s).sockfd) + holds a f xs
unfolding holds
holds-cons a s f xs = refl
