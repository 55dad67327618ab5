-- ===== src/Link/Transmit/OnPath.antt =====
-- A command sent over a path, HES/src/client.cpp: what it leaves written.
use atlascode.Prelude.{
  ℕ, zero, suc, ◌+◌, ◌≤◌, ◌≡◌, refl, ◌∙◌, ap, true, List, ◌∷◌, Bytes, length, arith,
}
use atlascode.Link.{Link}
use atlascode.Link.Transmit.{
  PathInfo, pmesh_body, frame_pmesh_command_packet, transmit_command_on_path_pmesh,
}
use atlascode.Link.Transmit.Laws.{copies, Sent, transmit-Sent}

-- A later link of the same gateway, which does not become connected again.
pub record Later (l l' : Link) : Type 0 where
  pub same_panid : l'.panid ≡ l.panid
  pub same_serial : l'.serial_number ≡ l.serial_number
  pub stays : l'.gateway_status ≡ true → l.gateway_status ≡ true

pub Later-refl : (l : Link) → Later l l
Later-refl l = record { same_panid = refl; same_serial = refl; stays = λ h. h }

pub Later-trans : {l m n : Link} → Later l m → Later m n → Later l n
Later-trans p q = record {
  same_panid = q.same_panid ∙ p.same_panid;
  same_serial = q.same_serial ∙ p.same_serial;
  stays = λ h. p.stays (q.stays h);
}

-- The last packet written is the command, framed for the path.
pub record LastWritten (packet_type : ℕ) (cmd : Bytes) (path : PathInfo) (l : Link) : Type 0 where
  pub before : List Bytes
  pub last : l.written ≡ frame_pmesh_command_packet packet_type path cmd l ∷ before

frame-same :
    (packet_type : ℕ) (cmd : Bytes) (path : PathInfo) (l l' : Link)
    → l'.panid ≡ l.panid
    → l'.serial_number ≡ l.serial_number
    → frame_pmesh_command_packet packet_type path cmd l
      ≡ frame_pmesh_command_packet packet_type path cmd l'
unfolding frame_pmesh_command_packet pmesh_body
frame-same packet_type cmd path l l' e d = rw (e, d) refl

length-copies :
    (n : ℕ) (buff : Bytes) (written : List Bytes)
    → length (copies n buff written) ≡ n + length written
length-copies zero buff written = omega arith
length-copies (suc n) buff written = omega (arith, length-copies n buff written)

module _ (packet_type : ℕ) (cmd : Bytes) (path : PathInfo) (retries : ℕ) (l : Link) where
  after : Link
  after = (transmit_command_on_path_pmesh packet_type cmd path (suc retries) l).1

  sent :
      (n : ℕ) × (n ≤ retries)
      × Sent (suc n) (frame_pmesh_command_packet packet_type path cmd l) l after
  unfolding after transmit_command_on_path_pmesh
  sent = transmit-Sent (frame_pmesh_command_packet packet_type path cmd l) retries l

  pub on_path-Later :
      Later l (transmit_command_on_path_pmesh packet_type cmd path (suc retries) l).1
  unfolding after
  on_path-Later =
      let (n, b, s) = sent in
      record { same_panid = s.same_panid; same_serial = s.same_serial; stays = s.stays }

  pub on_path-LastWritten :
      LastWritten packet_type cmd path
        (transmit_command_on_path_pmesh packet_type cmd path (suc retries) l).1
  unfolding after
  on_path-LastWritten =
      let (n, b, s) = sent in
      let buff = frame_pmesh_command_packet packet_type path cmd l in
      record {
        before = copies n buff l.written;
        last =
            s.same_written
            ∙ ap (λ b. b ∷ copies n buff l.written)
                (frame-same packet_type cmd path l after s.same_panid s.same_serial);
      }

  -- A command over a path adds no more packets to what was written than it has attempts, whatever
  -- comes in between.
  pub on_path-writes :
      length (transmit_command_on_path_pmesh packet_type cmd path (suc retries) l).1.written
      ≤ suc retries + length l.written
  unfolding after
  on_path-writes =
      let (n, b, s) = sent in
      rw s.same_written (
        omega
          (arith, length-copies n (frame_pmesh_command_packet packet_type path cmd l) l.written))
