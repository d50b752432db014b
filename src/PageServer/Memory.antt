-- ===== src/PageServer/Memory.antt =====
-- The shared memory of newServer.c: a page keeps what is written to it.
pub mod Guard
use so_distribuidos.Prelude.{
  take-all, ℕ, zero, suc, subst, ◌+◌, ◌*◌, ◌-◌, ◌≤◌, ◌<◌, Bool, true, false, Option, none, some,
  List, [], ◌∷◌, ◌++◌, ◌≡◌, ◌≢◌, ◌⊎◌, inl, inr, refl, sym, ap, ◌∙◌, arith, Bytes, Free, ℤ, pos,
  negsuc, eqb_ℤ, Bool-cases, leb, ltb, if◌then◌else◌, head?, length, take, replicate, slice,
  overwrite, c_str, length-append, length-take, length-replicate, length-overwrite,
  slice-overwrite_self, slice-overwrite_ne, c_str-append_zeros,
}
use so_distribuidos.PageServer.Message.{Incoming, Request, recv_command_page_num_content}
use so_distribuidos.PageServer.Server.{
  Server, Env, Pc, connected, waiting, writing, finished, Reply, page_content, fill_page, at_front,
  valid_page, enqueue, grant, lock_valid, read_valid, read_page, read_lock_page, poll_page,
  send_page, write_owned, write_valid, write_page, finish_write, handle_client,
}
use so_distribuidos.PageServer.Threads.{thread_step}

-- The segment has a page for each row of the table.
abbrev pub HasPages : Server → Type 0
HasPages s = length s.shared_memory ≡ s.num_pages * s.page_size

length-fill_page : (n : ℕ) (c : Bytes) → length (fill_page n c) ≡ n
length-fill_page n c = omega (
  arith,
  length-append (take n c) (replicate (n - length c) 0),
  length-take n c,
  length-replicate {A = ℕ} (n - length c) 0,
)

page_end : (p n size : ℕ) → p < n → p * size + size ≤ n * size
page_end p n size h = grind arith

pages_apart : (p q size : ℕ) → p ≢ q → (p * size + size ≤ q * size) ⊎ (q * size + size ≤ p * size)
pages_apart p q size h = elim (Bool-cases (ltb p q)) [
  | inl less ↦ inl (page_end p q size (ground arith))
  | inr more ↦ inr (page_end q p size (ground arith))
]

module _ (e : Env) (s : Server) (sized : HasPages s) where
  written_in_range :
      (p : ℕ) (c : Bytes)
      → p < s.num_pages
      → p * s.page_size + length (fill_page s.page_size c) ≤ length s.shared_memory
  written_in_range p c h =
      omega (arith, sized, length-fill_page s.page_size c, page_end p s.num_pages s.page_size h)

  -- A page that has been written holds the content, cut or filled with zeros to the page's size.
  pub page_content-write_owned :
      (p : ℕ) (c : Bytes)
      → p < s.num_pages
      → page_content (write_owned e s p c).server p ≡ fill_page s.page_size c
  unfolding page_content write_owned
  page_content-write_owned p c h =
      subst
        (λ n.
          slice (overwrite s.shared_memory (p * s.page_size) (fill_page s.page_size c))
            (p * s.page_size) n
          ≡ fill_page s.page_size c)
        (length-fill_page s.page_size c)
        (slice-overwrite_self s.shared_memory (p * s.page_size) (fill_page s.page_size c)
          (written_in_range p c h))

  write_owned_ne :
      (p q : ℕ) (c : Bytes)
      → p < s.num_pages
      → p ≢ q
      → page_content (write_owned e s p c).server q ≡ page_content s q
  unfolding page_content write_owned
  write_owned_ne p q c h n =
      slice-overwrite_ne s.shared_memory (p * s.page_size) (fill_page s.page_size c)
        (q * s.page_size) s.page_size (written_in_range p c h)
        (omega (arith, pages_apart p q s.page_size n, length-fill_page s.page_size c))

-- A text that fits the page is what a C string read from the page gives.
pub c_str-fill_page : (n : ℕ) (c : Bytes) → length c ≤ n → Free 0 c → c_str (fill_page n c) ≡ c
c_str-fill_page n c h free = rw (take-all n c h) (c_str-append_zeros c (n - length c) free)
