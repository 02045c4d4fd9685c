-- ===== src/Tests/Wire.antt =====
-- The buffer and the codec (net/buffer.h, net/buffer.cpp, protocol/codec.h) at concrete inputs.
use reactor_kv.Prelude.{◌≡◌, refl, some, [], ◌++◌, arith}
use reactor_kv.Bytes.{Bytes, bytes, Without}
use reactor_kv.Message.{CommandType, no_request}
use reactor_kv.Buffer.{Buffer, contents, append, read_fd}
use reactor_kv.Buffer.Laws.{IsBuffer, append_refines}
use reactor_kv.Buffer.Io.{read_fd_refines}
use reactor_kv.Codec.{parse_line, command_of, to_upper}
use reactor_kv.Codec.Frame.{newline}
use reactor_kv.Codec.Lines.{IsWord, put_line, parse_line-key_in_command}

-- A buffer with room for 16 bytes, which holds "PING\r\nG".
abbrev made : Buffer
made = record { store = bytes "........PING\r\nG........."; reader = 8; writer = 15 }

made-IsBuffer : IsBuffer made
made-IsBuffer = record {
  start = omega arith;
  end = omega arith;
  spare = omega arith;
  small = omega arith;
}

append_refines_example :
    IsBuffer (append (bytes "ET a\r\n ...") made)
    × (contents (append (bytes "ET a\r\n ...") made) ≡ contents made ++ bytes "ET a\r\n ...")
append_refines_example = append_refines (bytes "ET a\r\n ...") made-IsBuffer (omega arith)

read_fd_refines_example :
    IsBuffer (read_fd (some (bytes "ET a\r\n ...")) made)
    × (contents (read_fd (some (bytes "ET a\r\n ...")) made)
        ≡ contents made ++ bytes "ET a\r\n ...")
read_fd_refines_example = read_fd_refines (bytes "ET a\r\n ...") made-IsBuffer (omega arith)

-- The same room, and nothing held.
abbrev clean : Buffer
clean = record { store = bytes "........PING\r\nG........."; reader = 8; writer = 8 }

clean-IsBuffer : IsBuffer clean
clean-IsBuffer = record {
  start = omega arith;
  end = omega arith;
  spare = omega arith;
  small = omega arith;
}

abbrev ping_line : Bytes
ping_line = bytes "PING\r"

ping_line-Without : Without newline ping_line
ping_line-Without = omega arith

-- What is left of it behind the first line.
abbrev tail : Buffer
tail = record { store = bytes "........PING\r\nG........."; reader = 14; writer = 15 }

abbrev put_word : Bytes
put_word = bytes "put"

put_word-IsWord : IsWord put_word
put_word-IsWord = record { some_byte = refl; solid = (refl, (refl, (refl, tt))) }

abbrev key_word : Bytes
key_word = bytes "k1"

key_word-IsWord : IsWord key_word
key_word-IsWord = record { some_byte = refl; solid = (refl, (refl, tt)) }

-- PUT U 5 stores "T U 5".
parse_line-key_in_command_example :
    parse_line (put_line (bytes "PUT") (bytes "U") (bytes "5")) no_request
    ≡ record { command = CommandType.put; key = bytes "U"; value = bytes "T U 5" }
unfolding command_of to_upper
parse_line-key_in_command_example =
    parse_line-key_in_command (bytes "P") [] [] [] b'U' b'5' b'T' no_request
      (record { some_byte = refl; solid = (refl, (refl, (refl, tt))) })
      (record { some_byte = refl; solid = (refl, tt) }) (omega arith, tt) refl refl refl
